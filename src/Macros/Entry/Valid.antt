-- ===== src/Macros/Entry/Valid.antt =====
-- The machine of edfsm/tests/simple_valid_imp_fsm.rs, from its `impl` block to its test.
use Prim.Native.String.{String}
use text.Mathlib.Text.{◌==◌ as text_eq}
use edfsm.Prelude.{◌≡◌, refl, ◌∙◌, false, Option, none, some, List, [], ◌∷◌, map, if◌then◌else◌}
use edfsm.Fsm.{Change, transitioned, updated, Fsm}
use edfsm.Fsm.Started.{
  State, idle, running, Command, start, stop, Event, started, stopped, EffectHandlers, on_event,
  on_entry, start_something, stop_something, enter_running, incremented,
}
use edfsm.Macros.Parse.Printer.{moves}
use edfsm.Macros.Parse.Decl.{Decl, declared}
use edfsm.Macros.Parse.Block.{written}
use edfsm.Macros.Parse.Tokens.{named, tokens, printer}
use edfsm.Macros.Expand.{Expansion}
use edfsm.Macros.Expand.Run.{Code, generated}
use edfsm.Macros.Expand.Described.{described}
use edfsm.Macros.Expand.Sample.{same}
use edfsm.Macros.Syntax.{ok, FsmItem}
use edfsm.Macros.Parse.Item.{finish}
use edfsm.Macros.Expand.WellFormed.{WellFormed}
use edfsm.Macros.Expand.Reading.{HasEnums}
use edfsm.Macros.Expand.Readable.{readable, readable-Reads}
use edfsm.Macros.Entry.Written.{impl_fsm-written}
use edfsm.Macros.Entry.{code, impl_fsm}
use edfsm.Fsm.Started.Script.{commands_tested}

-- the `impl` block
abbrev pub valid_block : List Decl
valid_block =
    Decl.state_type (named "State")
    ∷ Decl.command_type (named "Command")
    ∷ Decl.event_type (named "Event")
    ∷ Decl.effect_type (named "EffectHandlers")
    ∷ Decl.entry (named "Running")
    ∷ Decl.command (named "Idle") (named "Start") (moves (named "Started") (named "Running") [])
    ∷ Decl.command (named "Running") (named "Stop") (moves (named "Stopped") (named "Idle") [])
    ∷ Decl.ignore_command (named "Idle") (named "Stop")
    ∷ Decl.ignore_command (named "Running") (named "Start")
    ∷ []

abbrev pub state_name : State → String
state_name idle = "Idle"
state_name running = "Running"

abbrev pub command_name : Command → String
command_name start = "Start"
command_name stop = "Stop"

abbrev pub event_name : Event → String
event_name started = "Started"
event_name stopped = "Stopped"

-- `for_running_stop` and `for_idle_start`
unfoldable pub for_handler : String → EffectHandlers → Option Event × EffectHandlers
unfolding start_something stop_something
for_handler handler se =
    if text_eq handler "for_Running_Stop"
    then (some stopped, stop_something se)
    else if text_eq handler "for_Idle_Start"
    then (some started, start_something se)
    else (none, se)

-- `on_running_stopped` and `on_idle_started`
unfoldable pub to_handler : String → Option State
to_handler handler =
    if text_eq handler "on_Running_Stopped"
    then some idle
    else if text_eq handler "on_Idle_Started"
    then some running
    else none

-- `on_entry_running`
unfoldable pub entry_handler : String → EffectHandlers → EffectHandlers
unfolding enter_running
entry_handler handler se = if text_eq handler "on_entry_Running" then enter_running se else se

-- impl MyFsm, by the names of its functions, which are left in the letters of the block
unfoldable pub handlers : Code State Command Event EffectHandlers
unfolding for_handler to_handler entry_handler
handlers = record {
  state_name = state_name;
  command_name = command_name;
  event_name = event_name;
  for_event = λ handler event s c se. for_handler handler se;
  for_effect = λ handler s c se. se;
  on_transition = λ handler to s e. (s, to_handler handler);
  on_decide = λ handler s e. (s, none);
  on_update = λ handler s e. s;
  on_update_if = λ handler s e. (s, false);
  on_entry = λ handler s se. entry_handler handler se;
  on_change = λ handler s e se. se;
}

-- What the block says: `on_event` and the entry are those of the machine that is written by hand in
-- edfsm/src/lib.rs, while the effects are those of commands.
unfoldable pub valid_command : State → Command → EffectHandlers → Option Event × EffectHandlers
unfolding start_something stop_something
valid_command idle start se = (some started, start_something se)
valid_command running stop se = (some stopped, stop_something se)
valid_command _ _ se = (none, se)

abbrev pub valid_fsm : Fsm State Command Event EffectHandlers
valid_fsm = record {
  for_command = valid_command;
  on_event = on_event;
  on_change = λ s e se c. on_entry s c se;
}

abbrev valid_described : Fsm State Command Event EffectHandlers
valid_described =
    described handlers same (declared valid_block).entry_handlers (declared valid_block).steps

valid_commands :
    (s : State) (c : Command) (se : EffectHandlers)
    → valid_described.for_command s c se ≡ valid_command s c se
unfolding valid_command for_handler handlers
valid_commands idle start se = refl
valid_commands idle stop se = refl
valid_commands running start se = refl
valid_commands running stop se = refl

valid_events : (s : State) (e : Event) → valid_described.on_event s e ≡ on_event s e
unfolding on_event to_handler handlers
valid_events idle started = refl
valid_events idle stopped = refl
valid_events running started = refl
valid_events running stopped = refl

valid_changes :
    (s : State) (e : Event) (se : EffectHandlers) (c : Change)
    → valid_described.on_change s e se c ≡ on_entry s c se
unfolding on_entry entry_handler handlers
valid_changes idle started se transitioned = refl
valid_changes idle stopped se transitioned = refl
valid_changes running started se transitioned = refl
valid_changes running stopped se transitioned = refl
valid_changes idle started se updated = refl
valid_changes idle stopped se updated = refl
valid_changes running started se updated = refl
valid_changes running stopped se updated = refl

abbrev valid_item : FsmItem
valid_item = record {
  state_enum = named "State";
  command_enum = named "Command";
  event_enum = named "Event";
  effect_handlers = named "EffectHandlers";
  entry_handlers = (declared valid_block).entry_handlers;
  steps = (declared valid_block).steps;
  ignore_commands = (declared valid_block).ignore_commands;
  ignore_events = [];
  trait_path = some ("Fsm" ∷ []);
}

valid_complete : finish (some ("Fsm" ∷ [])) (declared valid_block) ≡ ok valid_item
unfolding finish
valid_complete = refl

valid_item-WellFormed : WellFormed valid_item
valid_item-WellFormed = record {
  shaped = record {
    trait_path = refl;
    entries = (refl, tt);
    steps = (
      record { from = refl; command = refl; event = refl; to = refl; anchored = tt },
      (record { from = refl; command = refl; event = refl; to = refl; anchored = tt }, tt),
    );
    ignore_commands = ((refl, refl), ((refl, refl), tt));
    ignore_events = tt;
  };
  acting = (tt, (tt, tt));
}

valid_item-HasEnums : HasEnums valid_item
valid_item-HasEnums = record { state = (refl, tt); command = (refl, tt); event = (refl, tt) }

-- The macro emits code for the block, and the code is the machine that the test is about.
valid_emits :
    (x : Expansion) × (impl_fsm tokens readable same []
        (some ("Fsm" ∷ []))
        (map (written tokens printer) valid_block)
      ≡ code x)
    × (generated handlers x ≡ valid_fsm)
valid_emits =
    let (accepted, machine) =
      impl_fsm-written tokens printer readable same handlers [] (some ("Fsm" ∷ [])) valid_block
        valid_item refl valid_complete readable-Reads valid_item-HasEnums in
    let (x, emitted) = accepted.1 valid_item-WellFormed in
    (
      x,
      emitted,
      machine x emitted ∙ λ i. record {
        for_command = λ s c se. valid_commands s c se i;
        on_event = λ s e. valid_events s e i;
        on_change = λ s e se c. valid_changes s e se c i;
      },
    )

-- `main` of the test: its assertions are the first half of those in edfsm/src/lib.rs.
valid_test :
    commands_tested valid_fsm
    ≡ some (record { started = 1; stopped = 1; transitioned_stopped_to_started = 1 })
unfolding commands_tested valid_command on_event on_entry start_something stop_something
    enter_running incremented
valid_test = refl
