-- ===== src/Macros/Expand.antt =====
-- edfsm-macros/src/expand.rs: the arms of the generated `match` expressions, in order.
pub mod Arm
pub mod Run
pub mod Inversion
pub mod Targets
pub mod Table
pub mod Ignored
pub mod EventTable
pub mod EntryTable
pub mod ChangeTable
pub mod Described
pub mod WellFormed
pub mod Accepted
pub mod Landing
pub mod Reading
pub mod NoPanic
pub mod Coverage
pub mod Readable
pub mod Sample
mod Tests
use Prim.Native.String.{String, ◌++◌ as text_append}
use text.Mathlib.Text.{◌==◌ as text_eq}
use edfsm.Prelude.{
  ℕ, zero, suc, Bool, true, false, Option, none, some, List, [], ◌∷◌, ◌++◌, if◌then◌else◌, length,
}
use edfsm.Macros.Syntax.{
  Segment, Ty, infer, path, other, Failure, Outcome, ok, err, ◌>>=◌, Entry, TargetStates, Step,
  IgnoreCommand, IgnoreEvent, FsmItem,
}
pub use edfsm.Macros.Expand.Arm.{
  EntryArm, CommandArm, EventArm, ChangeArm, Arms, Expansion, append_arms, ImplItem,
}

unfoldable pub ident_from_type : Ty → Outcome String
ident_from_type (path (segment ∷ [])) =
    if segment.has_arguments then err Failure.no_arguments_expected else ok segment.ident
ident_from_type (path _) = err Failure.no_segments_expected
ident_from_type _ = err Failure.variant_expected

-- a state where `_` is allowed
unfoldable pub state_or_any : Ty → Outcome (Option String)
unfolding ident_from_type
state_or_any infer = ok none
state_or_any t = do i ← ident_from_type t; ok (some i)

unfoldable pub optional_ident : Option Ty → Outcome (Option String)
unfolding ident_from_type
optional_ident none = ok none
optional_ident (some t) = do i ← ident_from_type t; ok (some i)

unfoldable pub first_target : List Ty → Outcome (Option String × ℕ)
unfolding ident_from_type
first_target [] = err Failure.panic
first_target (t ∷ rest) = do i ← ident_from_type t; ok (some i, suc (length rest))

-- the first of the target states, and their number
unfoldable pub target : Option TargetStates → Outcome (Option String × ℕ)
unfolding first_target
target none = ok (none, 0)
target (some ts) = first_target ts.states

-- `lower` is `to_lowercase`
module _ (lower : String → String) where
  -- `for_{}_{}`, `on_{}_{}`, …, in lower case
  abbrev pub handler3 : String → String → String → String
  handler3 verb a b = lower (text_append verb (text_append a (text_append "_" b)))

  abbrev pub handler_for : String → Option String → String → String
  handler_for verb none b = lower (text_append verb (text_append "any_" b))
  handler_for verb (some a) b = handler3 verb a b

  unfoldable pub entry_arm : Entry → Outcome EntryArm
  unfolding ident_from_type
  entry_arm e = do
    state ← ident_from_type e.state
    ok (record { state = state; handler = lower (text_append "on_entry_" state) })

  unfoldable pub entry_arms : List Entry → Outcome (List EntryArm)
  unfolding entry_arm
  entry_arms [] = ok []
  entry_arms (e ∷ entries) = do a ← entry_arm e; rest ← entry_arms entries; ok (a ∷ rest)

  unfoldable pub command_arms : Option String → Option String → Option String → List CommandArm
  command_arms from none event = []
  command_arms from (some command) event =
      CommandArm.handle from command (handler_for "for_" from command) event ∷ []

  -- `to_state_num.cmp(&1)`, at a target state
  unfoldable pub target_arm : ℕ → Option String → String → String → EventArm
  target_arm zero from event to = EventArm.update_if from event (handler_for "on_" from event)
  target_arm (suc zero) from event to =
      EventArm.transition from event (handler_for "on_" from event) to
  target_arm (suc (suc n)) from event to = EventArm.decide from event (handler_for "on_" from event)

  -- `push_change_matches_conditionally`
  unfoldable pub change_arms : Bool → Option String → String → List ChangeArm
  change_arms true to event =
      record { state = to; event = event; handler = handler_for "on_change_" to event } ∷ []
  change_arms false to event = []

  -- The event and change arms of a step: from, event, target and number of targets, action.
  unfoldable pub event_arms :
      Option String
      → Option String
      → Option String
      → ℕ
      → Bool
      → Outcome (List EventArm × List ChangeArm)
  unfolding target_arm change_arms
  event_arms (some from) (some event) (some to) n action =
      ok (target_arm n (some from) event to ∷ [], change_arms action (some to) event)
  event_arms (some from) none (some to) n action = ok ([], [])
  event_arms none (some event) (some to) n action =
      ok (target_arm n none event to ∷ [], change_arms action (some to) event)
  event_arms none none (some to) n action = err Failure.panic
  event_arms (some from) (some event) none n action = ok (
    EventArm.update (some from) event (handler_for "on_" (some from) event) ∷ [],
    change_arms action (some from) event,
  )
  event_arms none (some event) none n action = ok (
    EventArm.update none event (handler_for "on_" none event) ∷ [],
    change_arms action none event,
  )
  event_arms from none none n action = ok ([], [])

  -- one round of `for s in &fsm.steps`
  unfoldable pub step_arms : Step → Outcome Arms
  step_arms s = do
    from ← state_or_any s.from_state
    command ← optional_ident s.command
    event ← optional_ident s.event
    (to, n) ← target s.to_state
    (events, changes) ← event_arms from event to n s.on_change
    ok (record { commands = command_arms from command event; events = events; changes = changes })

  unfoldable pub steps_arms : List Step → Outcome Arms
  steps_arms [] = ok (record { commands = []; events = []; changes = [] })
  steps_arms (s ∷ steps) = do a ← step_arms s; rest ← steps_arms steps; ok (append_arms a rest)

unfoldable pub ignored_commands : List IgnoreCommand → Outcome (List CommandArm)
ignored_commands [] = ok []
ignored_commands (i ∷ rest) = do
  from ← state_or_any i.from_state
  command ← ident_from_type i.command
  arms ← ignored_commands rest
  ok (CommandArm.ignore from command ∷ arms)

-- `_ => None` where nothing is declared as ignored
unfoldable pub command_rest : List IgnoreCommand → Outcome (List CommandArm)
command_rest [] = ok (CommandArm.otherwise ∷ [])
command_rest (i ∷ rest) = ignored_commands (i ∷ rest)

unfoldable pub ignored_events : List IgnoreEvent → Outcome (List EventArm)
ignored_events [] = ok []
ignored_events (i ∷ rest) = do
  from ← state_or_any i.from_state
  event ← ident_from_type i.event
  arms ← ignored_events rest
  ok (EventArm.ignore from event ∷ arms)

unfoldable pub event_rest : List IgnoreEvent → Outcome (List EventArm)
event_rest [] = ok (EventArm.otherwise ∷ [])
event_rest (i ∷ rest) = ignored_events (i ∷ rest)

-- the trait's path must end in `Fsm`
abbrev pub last_segment : List String → Option String
last_segment [] = none
last_segment (s ∷ []) = some s
last_segment (s ∷ t ∷ rest) = last_segment (t ∷ rest)

abbrev pub is_fsm : Option String → Outcome (Unit {0})
is_fsm none = err Failure.generic_required
is_fsm (some s) = if text_eq s "Fsm" then ok tt else err Failure.expected_fsm_trait

unfoldable pub check_trait : Option (List String) → Outcome (Unit {0})
check_trait none = err Failure.expected_fsm_trait
check_trait (some segments) = is_fsm (last_segment segments)

-- `expand`, up to the arms of the generated methods
unfoldable pub expand_arms : (String → String) → FsmItem → Outcome Expansion
expand_arms lower fsm = do
  checked ← check_trait fsm.trait_path
  entries ← entry_arms lower fsm.entry_handlers
  arms ← steps_arms lower fsm.steps
  commands ← command_rest fsm.ignore_commands
  events ← event_rest fsm.ignore_events
  ok (record {
    entry_matches = entries;
    arms = record {
      commands = arms.commands ++ commands;
      events = arms.events ++ events;
      changes = arms.changes;
    };
  })

-- the items that are quoted
abbrev pub quoted : FsmItem → Expansion → List ImplItem
quoted fsm x =
    ImplItem.associated_type "S" fsm.state_enum
    ∷ ImplItem.associated_type "C" fsm.command_enum
    ∷ ImplItem.associated_type "E" fsm.event_enum
    ∷ ImplItem.associated_type "SE" fsm.effect_handlers
    ∷ ImplItem.for_command_fn fsm.state_enum fsm.command_enum fsm.effect_handlers fsm.event_enum
        x.arms.commands
    ∷ ImplItem.on_event_fn fsm.state_enum fsm.event_enum x.arms.events
    ∷ ImplItem.on_change_fn fsm.state_enum fsm.event_enum fsm.effect_handlers x.entry_matches
        x.arms.changes
    ∷ []

-- `expand`. Whether `parse2` reads a quoted item is up to the library `syn`.
module _ (reads : ImplItem → Bool) where
  -- `parse2::<ImplItem>(…).unwrap()`, for each
  unfoldable pub unwrapped : List ImplItem → Outcome (Unit {0})
  unwrapped [] = ok tt
  unwrapped (i ∷ items) = let rest = unwrapped items in if reads i then rest else err Failure.panic

  unfoldable pub expand : (String → String) → FsmItem → Outcome Expansion
  unfolding expand_arms unwrapped
  expand lower fsm = do x ← expand_arms lower fsm; read ← unwrapped (quoted fsm x); ok x
