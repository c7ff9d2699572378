-- ===== src/Macros/Parse/Decl.antt =====
-- The declarations of an `impl` block, in the forms of the documentation, and what they stand for among
-- the local variables of `impl Parse for Fsm` in edfsm-macros/src/parse.rs.
use edfsm.Prelude.{
  ◌≡◌, refl, Bool, Option, none, some, List, [], ◌∷◌, ◌++◌, append-nil, append_assoc,
}
use edfsm.Macros.Syntax.{Ty}
use edfsm.Macros.Parse.Item.{Parsed, nothing_parsed}
use edfsm.Macros.Parse.Printer.{CommandTail, tail_event, tail_target, event_target}

-- A declaration: `type S = …;` and the like, `state!(s / entry)`, `command!(…)`, `event!(…)`,
-- `ignore_command!(s => c)` and `ignore_event!(s => e)`.
pub data Decl : Type 0 where
  state_type command_type event_type effect_type : Ty → Decl
  entry : Ty → Decl
  command : Ty → Ty → CommandTail → Decl
  event : Ty → Ty → Option (Ty × List Ty) → Bool → Decl
  ignore_command ignore_event : Ty → Ty → Decl

-- What one declaration declares.
abbrev pub declares : Decl → Parsed
declares (state_type t) = record nothing_parsed { state_enum = some t }
declares (command_type t) = record nothing_parsed { command_enum = some t }
declares (event_type t) = record nothing_parsed { event_enum = some t }
declares (effect_type t) = record nothing_parsed { effect_handlers = some t }
declares (entry s) = record nothing_parsed { entry_handlers = record { state = s } ∷ [] }
declares (command from c tail) = record nothing_parsed {
  steps =
      record {
        from_state = from;
        command = some c;
        event = tail_event tail;
        to_state = tail_target tail;
        on_change = Bool.false;
      }
      ∷ [];
}
declares (event from e to action) = record nothing_parsed {
  steps =
      record {
        from_state = from;
        command = none;
        event = some e;
        to_state = event_target to;
        on_change = action;
      }
      ∷ [];
}
declares (ignore_command from c) = record nothing_parsed {
  ignore_commands = record { from_state = from; command = c } ∷ [];
}
declares (ignore_event from e) = record nothing_parsed {
  ignore_events = record { from_state = from; event = e } ∷ [];
}

-- The later of two declarations of a type.
abbrev pub later : Option Ty → Option Ty → Option Ty
later a none = a
later a (some b) = some b

-- The declarations of two parts of a block, one behind the other.
abbrev pub both : Parsed → Parsed → Parsed
both p q = record {
  state_enum = later p.state_enum q.state_enum;
  command_enum = later p.command_enum q.command_enum;
  event_enum = later p.event_enum q.event_enum;
  effect_handlers = later p.effect_handlers q.effect_handlers;
  entry_handlers = p.entry_handlers ++ q.entry_handlers;
  steps = p.steps ++ q.steps;
  ignore_commands = p.ignore_commands ++ q.ignore_commands;
  ignore_events = p.ignore_events ++ q.ignore_events;
}

-- What a block declares.
abbrev pub declared : List Decl → Parsed
declared [] = nothing_parsed
declared (d ∷ ds) = both (declares d) (declared ds)

later_assoc : (a b c : Option Ty) → later (later a b) c ≡ later a (later b c)
later_assoc a b none = refl
later_assoc a b (some c) = refl

none-later : (a : Option Ty) → later none a ≡ a
none-later none = refl
none-later (some a) = refl

pub both_assoc : (p q r : Parsed) → both (both p q) r ≡ both p (both q r)
both_assoc p q r = λ i. record {
  state_enum = later_assoc p.state_enum q.state_enum r.state_enum i;
  command_enum = later_assoc p.command_enum q.command_enum r.command_enum i;
  event_enum = later_assoc p.event_enum q.event_enum r.event_enum i;
  effect_handlers = later_assoc p.effect_handlers q.effect_handlers r.effect_handlers i;
  entry_handlers = append_assoc p.entry_handlers q.entry_handlers r.entry_handlers i;
  steps = append_assoc p.steps q.steps r.steps i;
  ignore_commands = append_assoc p.ignore_commands q.ignore_commands r.ignore_commands i;
  ignore_events = append_assoc p.ignore_events q.ignore_events r.ignore_events i;
}

pub nothing-both : (p : Parsed) → both nothing_parsed p ≡ p
nothing-both p = λ i. record {
  state_enum = none-later p.state_enum i;
  command_enum = none-later p.command_enum i;
  event_enum = none-later p.event_enum i;
  effect_handlers = none-later p.effect_handlers i;
  entry_handlers = p.entry_handlers;
  steps = p.steps;
  ignore_commands = p.ignore_commands;
  ignore_events = p.ignore_events;
}

pub both-nothing : (p : Parsed) → both p nothing_parsed ≡ p
both-nothing p = λ i. record {
  state_enum = p.state_enum;
  command_enum = p.command_enum;
  event_enum = p.event_enum;
  effect_handlers = p.effect_handlers;
  entry_handlers = append-nil p.entry_handlers i;
  steps = append-nil p.steps i;
  ignore_commands = append-nil p.ignore_commands i;
  ignore_events = append-nil p.ignore_events i;
}
