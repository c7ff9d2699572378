-- ===== src/Macros/Entry/Tests.antt =====
-- The attribute of edfsm-macros/src/lib.rs at an `impl` block of two steps.
use Prim.Native.String.{String}
use edfsm.Prelude.{All, ◌≡◌, ◌↔◌, map, refl, sym, subst, ◌∙◌, true, none, some, List, [], ◌∷◌}
use edfsm.Macros.Syntax.{infer, ok, ok-injective, FsmItem, command_as_step, event_as_step}
use edfsm.Macros.Parse.{parse2, parse_command_step, parse_event_step, peeked_target, peeked_action}
use edfsm.Macros.Parse.Item.{
  parse_fsm, parse_items, parse_item, parse_type_item, parse_macro_item, finish,
}
use edfsm.Macros.Parse.Declared.{declared_steps}
use edfsm.Macros.Parse.Decl.{Decl, declared}
use edfsm.Macros.Parse.Block.{written, parse_fsm-written}
use edfsm.Macros.Parse.Sample.{block}
use edfsm.Macros.Parse.Tokens.{tokens, tokens-Calm, printer, named, small_impl}
use edfsm.Macros.Expand.Described.{described}
use edfsm.Macros.Expand.WellFormed.{WellFormed, IsActing}
use edfsm.Macros.Expand.Reading.{HasEnums}
use edfsm.Macros.Expand.Readable.{readable, readable-Reads}
use edfsm.Macros.Expand.{
  CommandArm, EventArm, Expansion, ident_from_type, state_or_any, optional_ident, target,
  entry_arms, command_arms, change_arms, event_arms, step_arms, steps_arms, command_rest,
  event_rest, check_trait, expand_arms, unwrapped, expand,
}
use edfsm.Macros.Expand.Run.{generated, or_none, settle}
use edfsm.Macros.Expand.Table.{first_reaction}
use edfsm.Macros.Expand.EventTable.{first_response}
use edfsm.Macros.Expand.Sample.{St, Co, Ev, same, handlers}
use edfsm.Macros.Entry.{code, panicked, emitted_fsm, impl_fsm}
use edfsm.Macros.Entry.Written.{impl_fsm-written}
use edfsm.Macros.Entry.EndToEnd.{impl_fsm-code}
use edfsm.Macros.Entry.NoPanic.{HasStray, impl_fsm_panics}

abbrev small_expansion : Expansion
small_expansion = record {
  entry_matches = [];
  arms = record {
    commands =
        CommandArm.handle (some "Idle") "Start" "for_Idle_Start" none ∷ CommandArm.otherwise ∷ [];
    events =
        EventArm.update (some "Running") "Stopped" "on_Running_Stopped" ∷ EventArm.otherwise ∷ [];
    changes = [];
  };
}

small_emits : impl_fsm tokens readable same [] (some ("Fsm" ∷ [])) small_impl ≡ code small_expansion
unfolding impl_fsm emitted_fsm parse_fsm parse_items parse_item parse_type_item parse_macro_item
    finish parse2 parse_command_step parse_event_step peeked_target peeked_action command_as_step
    event_as_step expand expand_arms unwrapped check_trait entry_arms steps_arms step_arms
    state_or_any optional_ident target command_arms event_arms change_arms command_rest event_rest
    ident_from_type
small_emits = refl

impl_fsm-code_example :
    (true ≡ true)
    × ((s : St) (c : Co) (log : List String)
        → (generated handlers small_expansion).for_command s c log
          ≡ or_none
              (none, log)
              (first_reaction handlers same (declared_steps tokens small_impl) s c log))
    × ((s : St) (e : Ev)
        → (generated handlers small_expansion).on_event s e
          ≡ settle (
              or_none
                (s, none)
                (first_response handlers same (declared_steps tokens small_impl) s e)))
impl_fsm-code_example =
    impl_fsm-code tokens readable same handlers [] (some ("Fsm" ∷ [])) small_impl small_expansion
      small_emits

abbrev block_fsm : FsmItem
block_fsm = record {
  state_enum = named "State";
  command_enum = named "Command";
  event_enum = named "Event";
  effect_handlers = named "EffectHandlers";
  entry_handlers = (declared block).entry_handlers;
  steps = (declared block).steps;
  ignore_commands = (declared block).ignore_commands;
  ignore_events = (declared block).ignore_events;
  trait_path = some ("Fsm" ∷ []);
}

block_complete : finish (some ("Fsm" ∷ [])) (declared block) ≡ ok block_fsm
unfolding finish
block_complete = refl

block_fsm-HasEnums : HasEnums block_fsm
block_fsm-HasEnums = record { state = (refl, tt); command = (refl, tt); event = (refl, tt) }

impl_fsm-written_example :
    let emitted =
      impl_fsm tokens readable same [] (some ("Fsm" ∷ [])) (map (written tokens printer) block) in
    (((x : Expansion) × (emitted ≡ code x)) ↔ WellFormed block_fsm)
    × ((x : Expansion)
        → emitted ≡ code x
        → generated handlers x
          ≡ described handlers same (declared block).entry_handlers (declared block).steps)
impl_fsm-written_example =
    impl_fsm-written tokens printer readable same handlers [] (some ("Fsm" ∷ [])) block block_fsm
      refl block_complete readable-Reads block_fsm-HasEnums

-- and this block is one
block_WellFormed : WellFormed block_fsm
block_WellFormed = record {
  shaped = record {
    trait_path = refl;
    entries = (refl, tt);
    steps = (
      record { from = refl; command = refl; event = refl; to = refl; anchored = tt },
      (
        record { from = tt; command = tt; event = refl; to = refl; anchored = tt },
        (record { from = tt; command = refl; event = refl; to = tt; anchored = tt }, tt),
      ),
    );
    ignore_commands = ((refl, refl), tt);
    ignore_events = ((refl, refl), tt);
  };
  acting = (tt, (tt, (tt, tt)));
}

-- the block, with `event!(_ => Started / action)` in front
abbrev stray_block : List Decl
stray_block = Decl.event infer (named "Started") none true ∷ block

abbrev stray_fsm : FsmItem
stray_fsm = record block_fsm { steps = (declared stray_block).steps }

stray_complete : finish (some ("Fsm" ∷ [])) (declared stray_block) ≡ ok stray_fsm
unfolding finish
stray_complete = refl

stray_parsed :
    parse_fsm tokens (some ("Fsm" ∷ [])) (map (written tokens printer) stray_block) ≡ ok stray_fsm
stray_parsed = parse_fsm-written tokens printer (some ("Fsm" ∷ [])) stray_block ∙ stray_complete

stray_fsm-HasEnums : HasEnums stray_fsm
stray_fsm-HasEnums = record { state = (refl, tt); command = (refl, tt); event = (refl, tt) }

stray_HasEnums :
    (fsm : FsmItem)
    → parse_fsm tokens (some ("Fsm" ∷ [])) (map (written tokens printer) stray_block) ≡ ok fsm
    → HasEnums fsm
stray_HasEnums fsm h = subst HasEnums (ok-injective (sym stray_parsed ∙ h)) stray_fsm-HasEnums

impl_fsm_panics_example :
    let items = map (written tokens printer) stray_block in
    (impl_fsm tokens readable same [] (some ("Fsm" ∷ [])) items ≡ panicked)
    ↔ HasStray (parse_fsm tokens (some ("Fsm" ∷ [])) items)
impl_fsm_panics_example =
    impl_fsm_panics tokens tokens-Calm readable readable-Reads same [] (some ("Fsm" ∷ []))
      (map (written tokens printer) stray_block) refl stray_HasEnums

-- there, the macro panics
stray_panics :
    impl_fsm tokens readable same [] (some ("Fsm" ∷ [])) (map (written tokens printer) stray_block)
    ≡ panicked
stray_panics = impl_fsm_panics_example.1 (
  stray_fsm,
  stray_parsed,
  (
    record {
      trait_path = refl;
      entries = (refl, tt);
      steps = (
        record { from = tt; command = tt; event = refl; to = tt; anchored = tt },
        block_WellFormed.shaped.steps,
      );
      ignore_commands = block_WellFormed.shaped.ignore_commands;
      ignore_events = block_WellFormed.shaped.ignore_events;
    },
    λ (a : All IsActing stray_fsm.steps). a.0,
  ),
)
