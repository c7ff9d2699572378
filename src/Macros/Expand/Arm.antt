-- ===== src/Macros/Expand/Arm.antt =====
-- The arms of edfsm-macros/src/expand.rs. A token stream that the code quotes is a constructor with what
-- is spliced into it.
use Prim.Native.String.{String}
use edfsm.Prelude.{Option, List, ◌++◌}
use edfsm.Macros.Syntax.{Ty}

-- `State::#state(s) => Self::#handler(s, se)`
pub record EntryArm : Type 0 where
  pub state : String
  pub handler : String

pub data CommandArm : Type 0 where
  -- `(State::#from(s), Command::#command(c)) => Self::#handler(s, c, se).map(Event::#event)`, or
  -- `{ Self::#handler(s, c, se); None }` without an event; `_` without a state
  handle : Option String → String → String → Option String → CommandArm
  -- `(State::#from(s), Command::#command(_)) => None`
  ignore : Option String → String → CommandArm
  -- `_ => None`
  otherwise : CommandArm

pub data EventArm : Type 0 where
  -- `Self::#handler(s, e).map(|_| (Change::Updated, None))`
  update_if : Option String → String → String → EventArm
  -- `Self::#handler(s, e).map(|new_s| (Change::Transitioned, Some(State::#to(new_s))))`
  transition : Option String → String → String → String → EventArm
  -- `Self::#handler(s, e)`
  decide : Option String → String → String → EventArm
  -- `{ Self::#handler(s, e); Some((Change::Updated, None)) }`
  update : Option String → String → String → EventArm
  ignore : Option String → String → EventArm
  otherwise : EventArm

-- `(State::#to(s), Event::#event(e)) => Self::#handler(s, e, se)`; an absent state leaves the text
-- `State::(s)`, which is no pattern
pub record ChangeArm : Type 0 where
  pub state : Option String
  pub event : String
  pub handler : String

pub record Arms : Type 0 where
  pub commands : List CommandArm
  pub events : List EventArm
  pub changes : List ChangeArm

pub record Expansion : Type 0 where
  pub entry_matches : List EntryArm
  pub arms : Arms

abbrev pub append_arms : Arms → Arms → Arms
append_arms a b = record {
  commands = a.commands ++ b.commands;
  events = a.events ++ b.events;
  changes = a.changes ++ b.changes;
}

-- What is quoted for an item of the block.
pub data ImplItem : Type 0 where
  -- `type #name = #type;`
  associated_type : String → Ty → ImplItem
  -- `fn for_command` over the state, the command, the effect handlers and the event
  for_command_fn : Ty → Ty → Ty → Ty → List CommandArm → ImplItem
  -- `fn on_event` over the state and the event
  on_event_fn : Ty → Ty → List EventArm → ImplItem
  -- `fn on_change` over the state, the event and the effect handlers
  on_change_fn : Ty → Ty → Ty → List EntryArm → List ChangeArm → ImplItem
