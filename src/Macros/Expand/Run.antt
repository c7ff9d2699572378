-- ===== src/Macros/Expand/Run.antt =====
-- What the code that edfsm-macros/src/expand.rs generates does when it runs: the first arm of a
-- `match` that fits is taken.
use Prim.Native.String.{String}
use text.Mathlib.Text.{◌==◌ as text_eq}
use edfsm.Prelude.{Bool, true, false, ◌&&◌, Option, none, some, List, [], ◌∷◌, if◌then◌else◌}
use edfsm.Fsm.{Change, transitioned, updated, Fsm}
use edfsm.Macros.Expand.{EntryArm, CommandArm, EventArm, ChangeArm, Expansion}

-- The developer's enums, by the names of their variants, and functions, by the names of the
-- handlers. An event handler may write to the state that it is lent.
pub record Code {ℓ} (S C E SE : Type ℓ) : Type ℓ where
  pub state_name : S → String
  pub command_name : C → String
  pub event_name : E → String
  -- `Self::#handler(s, c, se)`, its result in the variant of the given name
  pub for_event : String → String → S → C → SE → Option E × SE
  -- the same, for a handler that returns nothing
  pub for_effect : String → S → C → SE → SE
  -- `Self::#handler(s, e)`, its result in the variant of the given name
  pub on_transition : String → String → S → E → S × Option S
  pub on_decide : String → S → E → S × Option (Change × Option S)
  pub on_update : String → S → E → S
  pub on_update_if : String → S → E → S × Bool
  pub on_entry : String → S → SE → SE
  pub on_change : String → S → E → SE → SE

-- a pattern, `_` or a variant
abbrev pub fits : Option String → String → Bool
fits none n = true
fits (some m) n = text_eq m n

abbrev pub is_fit : Option String → String → Bool
is_fit none n = false
is_fit (some m) n = text_eq m n

module _ {ℓ} {S : Type ℓ} where
  abbrev pub moved : S × Option S → S × Option (Change × Option S)
  moved (s, none) = (s, none)
  moved (s, some t) = (s, some (transitioned, some t))

  abbrev pub kept : S × Bool → S × Option (Change × Option S)
  kept (s, true) = (s, some (updated, none))
  kept (s, false) = (s, none)

  -- `if let Some((c, new_s)) = r { … }`
  abbrev pub settle : S × Option (Change × Option S) → S × Option Change
  settle (s, none) = (s, none)
  settle (s, some (c, none)) = (s, some c)
  settle (s, some (c, some t)) = (t, some c)

abbrev pub or_none {ℓ} : {A : Type ℓ} → A → Option A → A
or_none a none = a
or_none a (some b) = b

module _ {ℓ} {S C E SE : Type ℓ} (code : Code S C E SE) where
  abbrev pub react : String → Option String → S → C → SE → Option E × SE
  react handler none s c se = (none, code.for_effect handler s c se)
  react handler (some event) s c se = code.for_event handler event s c se

  -- the `match` of `for_command`; `none`, where no arm fits, is refused by the compiler
  unfoldable pub run_commands : List CommandArm → S → C → SE → Option (Option E × SE)
  run_commands [] s c se = none
  run_commands (CommandArm.handle from command handler event ∷ arms) s c se =
      if fits from (code.state_name s) && text_eq command (code.command_name c)
      then some (react handler event s c se)
      else run_commands arms s c se
  run_commands (CommandArm.ignore from command ∷ arms) s c se =
      if fits from (code.state_name s) && text_eq command (code.command_name c)
      then some (none, se)
      else run_commands arms s c se
  run_commands (CommandArm.otherwise ∷ arms) s c se = some (none, se)

  -- the `match` of `on_event`, with the state that the handler leaves
  unfoldable pub run_events : List EventArm → S → E → Option (S × Option (Change × Option S))
  run_events [] s e = none
  run_events (EventArm.update_if from event handler ∷ arms) s e =
      if fits from (code.state_name s) && text_eq event (code.event_name e)
      then some (kept (code.on_update_if handler s e))
      else run_events arms s e
  run_events (EventArm.transition from event handler to ∷ arms) s e =
      if fits from (code.state_name s) && text_eq event (code.event_name e)
      then some (moved (code.on_transition handler to s e))
      else run_events arms s e
  run_events (EventArm.decide from event handler ∷ arms) s e =
      if fits from (code.state_name s) && text_eq event (code.event_name e)
      then some (code.on_decide handler s e)
      else run_events arms s e
  run_events (EventArm.update from event handler ∷ arms) s e =
      if fits from (code.state_name s) && text_eq event (code.event_name e)
      then some (code.on_update handler s e, some (updated, none))
      else run_events arms s e
  run_events (EventArm.ignore from event ∷ arms) s e =
      if fits from (code.state_name s) && text_eq event (code.event_name e)
      then some (s, none)
      else run_events arms s e
  run_events (EventArm.otherwise ∷ arms) s e = some (s, none)

  unfoldable pub run_entries : List EntryArm → S → SE → SE
  run_entries [] s se = se
  run_entries (arm ∷ arms) s se =
      if text_eq arm.state (code.state_name s)
      then code.on_entry arm.handler s se
      else run_entries arms s se

  unfoldable pub run_changes : List ChangeArm → S → E → SE → SE
  run_changes [] s e se = se
  run_changes (arm ∷ arms) s e se =
      if is_fit arm.state (code.state_name s) && text_eq arm.event (code.event_name e)
      then code.on_change arm.handler s e se
      else run_changes arms s e se

  abbrev pub entered : List EntryArm → S → SE → Change → SE
  entered arms s se transitioned = run_entries arms s se
  entered arms s se updated = se

  -- The generated implementation. Where no arm fits there is no program; it is put down as no
  -- reaction.
  unfoldable pub generated : Expansion → Fsm S C E SE
  unfolding run_commands run_events run_entries run_changes
  generated x = record {
    for_command = λ s c se. or_none (none, se) (run_commands x.arms.commands s c se);
    on_event = λ s e. settle (or_none (s, none) (run_events x.arms.events s e));
    on_change = λ s e se c. run_changes x.arms.changes s e (entered x.entry_matches s se c);
  }
