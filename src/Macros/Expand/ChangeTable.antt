-- ===== src/Macros/Expand/ChangeTable.antt =====
-- The generated `on_change` against the description, for edfsm-macros/src/expand.rs.
use Prim.Native.String.{String}
use text.Mathlib.Text.{◌==◌ as text_eq}
use edfsm.Prelude.{
  ℕ, ◌≡◌, refl, ap, ap₂, ◌∙◌, Bool, true, false, ◌&&◌, Option, none, some, List, [], ◌∷◌, ◌++◌,
  arith, if◌then◌else◌,
}
use edfsm.Fsm.{Change}
use edfsm.Macros.Syntax.{Ty, Outcome, ok, TargetStates, Step, FsmItem, >>=-eq-ok, ok-injective}
use edfsm.Macros.Expand.{
  EventArm, ChangeArm, Arms, Expansion, ident_from_type, first_target, target, change_arms,
  event_arms, handler_for, steps_arms, expand_arms,
}
use edfsm.Macros.Expand.Run.{Code, is_fit, run_changes, or_none, generated}
use edfsm.Macros.Expand.Inversion.{step_arms-eq-ok, steps_arms-eq-ok, expand_arms-eq-ok}
use edfsm.Macros.Expand.EntryTable.{on_entry, entered-on_entry}
use edfsm.Macros.Expand.Table.{
  name_of, optional_name, or_else, steps_arms-nil, state_or_any-eq-ok, optional_ident-eq-ok,
  ident_from_type-eq-ok,
}

-- The first target state that a step declares.
abbrev pub first_of : List Ty → Option String
first_of [] = none
first_of (t ∷ rest) = name_of t

abbrev pub first_name : Option TargetStates → Option String
first_name none = none
first_name (some ts) = first_of ts.states

-- The state that a step is taken to lead to: its first target, else the state that it starts from.
abbrev pub landing : Option String → Option String → Option String
landing from none = from
landing from (some to) = some to

first_target-first_of :
    (ts : List Ty) (to : Option String) (n : ℕ) → first_target ts ≡ ok (to, n) → first_of ts ≡ to
unfolding first_target
first_target-first_of [] to n h = cc
first_target-first_of (t ∷ rest) to n h =
    let (i, named, h') = >>=-eq-ok (ident_from_type t) _ h in
    ident_from_type-eq-ok t i named ∙ ap (λ (p : Option String × ℕ). p.0) (ok-injective h')

target-first_name :
    (ts : Option TargetStates) (to : Option String) (n : ℕ)
    → target ts ≡ ok (to, n)
    → first_name ts ≡ to
unfolding target
target-first_name none to n h = ap (λ (p : Option String × ℕ). p.0) (ok-injective h)
target-first_name (some ts) to n h = first_target-first_of ts.states to n h

second_of_ok :
    {a b : List EventArm} {c d : List ChangeArm}
    → ◌≡◌ {A = Outcome (List EventArm × List ChangeArm)} (ok (a, c)) (ok (b, d))
    → c ≡ d
second_of_ok h = cc h

module _ {ℓ} {S C E SE : Type ℓ} (code : Code S C E SE) (lower : String → String) where
  -- One declared step, at a new state and an event.
  abbrev pub change_reaction : Option String → Bool → Option String → S → E → SE → Option SE
  change_reaction none action state s e se = none
  change_reaction (some event) false state s e se = none
  change_reaction (some event) true state s e se =
      if is_fit state (code.state_name s) && text_eq event (code.event_name e)
      then some (code.on_change (handler_for lower "on_change_" state event) s e se)
      else none

  -- The first declared step with an action that leads to the state by the event.
  abbrev pub first_change : List Step → S → E → SE → Option SE
  first_change [] s e se = none
  first_change (step ∷ steps) s e se =
      or_else
        (change_reaction (optional_name step.event) step.on_change
          (landing (name_of step.from_state) (first_name step.to_state)) s e se)
        (first_change steps s e se)

  try_changes : List ChangeArm → S → E → SE → Option SE
  try_changes [] s e se = none
  try_changes (arm ∷ arms) s e se =
      if is_fit arm.state (code.state_name s) && text_eq arm.event (code.event_name e)
      then some (code.on_change arm.handler s e se)
      else try_changes arms s e se

  run_changes-try_changes :
      (arms : List ChangeArm) (s : S) (e : E) (se : SE)
      → run_changes code arms s e se ≡ or_none se (try_changes arms s e se)
  unfolding run_changes try_changes
  run_changes-try_changes [] s e se = refl
  run_changes-try_changes (arm ∷ arms) s e se = ground (arith, run_changes-try_changes arms s e se)

  try_changes-append :
      (xs ys : List ChangeArm) (s : S) (e : E) (se : SE)
      → try_changes (xs ++ ys) s e se ≡ or_else (try_changes xs s e se) (try_changes ys s e se)
  unfolding try_changes
  try_changes-append [] ys s e se = refl
  try_changes-append (arm ∷ xs) ys s e se = ground (arith, try_changes-append xs ys s e se)

  try_changes-change_arms :
      (action : Bool) (state : Option String) (event : String) (s : S) (e : E) (se : SE)
      → try_changes (change_arms lower action state event) s e se
        ≡ change_reaction (some event) action state s e se
  unfolding try_changes change_arms
  try_changes-change_arms true state event s e se = refl
  try_changes-change_arms false state event s e se = refl

  try_changes-event_arms :
      (from event to : Option String) (n : ℕ) (action : Bool) (events : List EventArm)
      (changes : List ChangeArm) (s : S) (e : E) (se : SE)
      → event_arms lower from event to n action ≡ ok (events, changes)
      → try_changes changes s e se ≡ change_reaction event action (landing from to) s e se
  unfolding event_arms try_changes
  try_changes-event_arms (some from) (some event) (some to) n action events changes s e se h =
      rw (← second_of_ok h) (try_changes-change_arms action (some to) event s e se)
  try_changes-event_arms none (some event) (some to) n action events changes s e se h =
      rw (← second_of_ok h) (try_changes-change_arms action (some to) event s e se)
  try_changes-event_arms (some from) none (some to) n action events changes s e se h =
      rw (← second_of_ok h) refl
  try_changes-event_arms none none (some to) n action events changes s e se h = cc
  try_changes-event_arms (some from) (some event) none n action events changes s e se h =
      rw (← second_of_ok h) (try_changes-change_arms action (some from) event s e se)
  try_changes-event_arms none (some event) none n action events changes s e se h =
      rw (← second_of_ok h) (try_changes-change_arms action none event s e se)
  try_changes-event_arms from none none n action events changes s e se h =
      rw (← second_of_ok h) refl

  try_changes-steps_arms :
      (steps : List Step) (a : Arms) (s : S) (e : E) (se : SE)
      → steps_arms lower steps ≡ ok a
      → try_changes a.changes s e se ≡ first_change steps s e se
  try_changes-steps_arms [] a s e se h =
      rw (← steps_arms-nil lower a h) (unfold try_changes in refl)
  try_changes-steps_arms (step ∷ steps) a s e se h =
      let p = steps_arms-eq-ok lower step steps a h in
      let q = step_arms-eq-ok lower step p.head p.head_ok in
      let head : try_changes p.head.changes s e se
          ≡ change_reaction (optional_name step.event) step.on_change
              (landing (name_of step.from_state) (first_name step.to_state)) s e se =
        rw
          (
            ← q.result,
            state_or_any-eq-ok step.from_state q.from q.from_ok,
            optional_ident-eq-ok step.event q.event q.event_ok,
            target-first_name step.to_state q.to q.count q.target_ok,
          )
          (try_changes-event_arms q.from q.event q.to q.count step.on_change q.events q.changes s e
            se q.arms_ok) in
      rw (← p.result) (
        try_changes-append p.head.changes p.tail.changes s e se
        ∙ ap₂ or_else head (try_changes-steps_arms steps p.tail s e se p.tail_ok))

  -- The `on_change` that is generated, where the expansion succeeds, is the table of the
  -- description: at a transition the first entry handler for the new state runs, and at any change
  -- the first step with an action whose event fits, and whose first target state, or, without one,
  -- starting state, is the new state. A step with an action and neither state is never taken.
  pub generated-on_change :
      (fsm : FsmItem) (x : Expansion) (s : S) (e : E) (se : SE) (c : Change)
      → expand_arms lower fsm ≡ ok x
      → let se' = on_entry code lower fsm.entry_handlers c s se in
        (generated code x).on_change s e se c ≡ or_none se' (first_change fsm.steps s e se')
  unfolding generated
  generated-on_change fsm x s e se c h =
      let p = expand_arms-eq-ok lower fsm x h in
      rw
        (
          ← p.result,
          entered-on_entry code lower fsm.entry_handlers p.entries s se c p.entries_ok,
          run_changes-try_changes p.arms.changes s e
              (on_entry code lower fsm.entry_handlers c s se),
        )
        (ap (or_none (on_entry code lower fsm.entry_handlers c s se)) (
          try_changes-steps_arms fsm.steps p.arms s e
            (on_entry code lower fsm.entry_handlers c s se) p.arms_ok))
