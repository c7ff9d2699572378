-- ===== src/Macros/Expand/Sample.antt =====
-- A state machine as in the documentation of edfsm-macros: idle, running, start and stop.
use Prim.Native.String.{String}
use edfsm.Prelude.{true, false, none, some, List, [], ◌∷◌}
use edfsm.Macros.Syntax.{Ty, infer, path, Step, FsmItem}
use edfsm.Macros.Expand.{CommandArm, EventArm, Expansion}
use edfsm.Macros.Expand.Run.{Code}

pub data St : Type 0 where
  idle running : St

pub data Co : Type 0 where
  start stop : Co

pub data Ev : Type 0 where
  started stopped : Ev

abbrev pub named : String → Ty
named i = path (record { ident = i; has_arguments = false } ∷ [])

abbrev pub same : String → String
same i = i

-- command!(Idle => Start => Started => Running)
abbrev pub idle_start : Step
idle_start = record {
  from_state = named "Idle";
  command = some (named "Start");
  event = some (named "Started");
  to_state = some (record { states = named "Running" ∷ [] });
  on_change = false;
}

-- event!(Running => Stopped => Idle / action)
abbrev pub running_stopped : Step
running_stopped = record {
  from_state = named "Running";
  command = none;
  event = some (named "Stopped");
  to_state = some (record { states = named "Idle" ∷ [] });
  on_change = true;
}

-- command!(_ => Stop => Stopped)
abbrev pub any_stop : Step
any_stop = record {
  from_state = infer;
  command = some (named "Stop");
  event = some (named "Stopped");
  to_state = none;
  on_change = false;
}

abbrev pub two_states : FsmItem
two_states = record {
  state_enum = named "State";
  command_enum = named "Command";
  event_enum = named "Event";
  effect_handlers = named "EffectHandlers";
  entry_handlers = record { state = named "Running" } ∷ [];
  steps = idle_start ∷ running_stopped ∷ any_stop ∷ [];
  ignore_commands = [];
  ignore_events = [];
  trait_path = some ("Fsm" ∷ []);
}

abbrev pub two_states_expansion : Expansion
two_states_expansion = record {
  entry_matches = record { state = "Running"; handler = "on_entry_Running" } ∷ [];
  arms = record {
    commands =
        CommandArm.handle (some "Idle") "Start" "for_Idle_Start" (some "Started")
        ∷ CommandArm.handle none "Stop" "for_any_Stop" (some "Stopped")
        ∷ CommandArm.otherwise
        ∷ [];
    events =
        EventArm.transition (some "Idle") "Started" "on_Idle_Started" "Running"
        ∷ EventArm.transition (some "Running") "Stopped" "on_Running_Stopped" "Idle"
        ∷ EventArm.update none "Stopped" "on_any_Stopped"
        ∷ EventArm.otherwise
        ∷ [];
    changes =
        record { state = some "Idle"; event = "Stopped"; handler = "on_change_Idle_Stopped" } ∷ [];
  };
}

abbrev pub name_of_state : St → String
name_of_state idle = "Idle"
name_of_state running = "Running"

abbrev pub name_of_command : Co → String
name_of_command start = "Start"
name_of_command stop = "Stop"

abbrev pub name_of_event : Ev → String
name_of_event started = "Started"
name_of_event stopped = "Stopped"

-- handlers that start where idle, stop where running, and log their names
abbrev pub handlers : Code St Co Ev (List String)
handlers = record {
  state_name = name_of_state;
  command_name = name_of_command;
  event_name = name_of_event;
  for_event = λ handler event s c log.
      (elim c [ start ↦ some started | stop ↦ some stopped ], handler ∷ log);
  for_effect = λ handler s c log. handler ∷ log;
  on_transition = λ handler to s e. (s, elim e [ started ↦ some running | stopped ↦ some idle ]);
  on_decide = λ handler s e. (s, none);
  on_update = λ handler s e. s;
  on_update_if = λ handler s e. (s, false);
  on_entry = λ handler s log. handler ∷ log;
  on_change = λ handler s e log. handler ∷ log;
}
