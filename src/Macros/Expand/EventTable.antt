-- ===== src/Macros/Expand/EventTable.antt =====
-- The generated `on_event` against the description, for edfsm-macros/src/expand.rs.
use Prim.Native.String.{String}
use text.Mathlib.Text.{◌==◌ as text_eq}
use edfsm.Prelude.{
  ℕ, suc, ◌≡◌, refl, ap, ap₂, ◌∙◌, Bool, ◌&&◌, Option, none, some, List, [], ◌∷◌, ◌++◌, arith,
  if◌then◌else◌, length,
}
use edfsm.Fsm.{Change, updated}
use edfsm.Macros.Syntax.{Ty, Outcome, ok, TargetStates, Step, FsmItem, >>=-eq-ok, ok-injective}
use edfsm.Macros.Expand.{
  EventArm, ChangeArm, Arms, Expansion, ident_from_type, first_target, target, event_arms,
  handler_for, step_arms, steps_arms, expand_arms,
}
use edfsm.Macros.Expand.Run.{Code, fits, moved, settle, run_events, or_none, generated}
use edfsm.Macros.Expand.Ignored.{event_rest-Ignoring, Ignoring-quiet}
use edfsm.Macros.Expand.Inversion.{step_arms-eq-ok, steps_arms-eq-ok, expand_arms-eq-ok}
use edfsm.Macros.Expand.Table.{
  name_of, optional_name, or_else, or_none-or_else, steps_arms-nil, state_or_any-eq-ok,
  optional_ident-eq-ok, ident_from_type-eq-ok,
}

-- What a step declares of its target: none, one state, or a choice of states.
pub data Target : Type 0 where
  stay : Target
  move : String → Target
  choose : Target

abbrev pub move_to : Option String → Target
move_to none = stay
move_to (some to) = move to

abbrev pub targets_of : List Ty → Target
targets_of [] = stay
targets_of (t ∷ []) = move_to (name_of t)
targets_of (t ∷ u ∷ rest) = choose

abbrev pub target_of : Option TargetStates → Target
target_of none = stay
target_of (some ts) = targets_of ts.states

first_of_ok :
    {a b : List EventArm} {c d : List ChangeArm}
    → ◌≡◌ {A = Outcome (List EventArm × List ChangeArm)} (ok (a, c)) (ok (b, d))
    → a ≡ b
first_of_ok h = cc h

module _ {ℓ} {S C E SE : Type ℓ} (code : Code S C E SE) (lower : String → String) where
  -- The handler of a step, called by its target: without one it updates the state in place, with
  -- one it may give the state to move to, and with several it says what happens.
  abbrev pub act : String → Target → S → E → S × Option (Change × Option S)
  act handler stay s e = (code.on_update handler s e, some (updated, none))
  act handler (move to) s e = moved (code.on_transition handler to s e)
  act handler choose s e = code.on_decide handler s e

  abbrev pub response :
      Option String → Option String → Target → S → E → Option (S × Option (Change × Option S))
  response from none t s e = none
  response from (some event) t s e =
      if fits from (code.state_name s) && text_eq event (code.event_name e)
      then some (act (handler_for lower "on_" from event) t s e)
      else none

  -- The first declared step that fits the state and the event.
  abbrev pub first_response : List Step → S → E → Option (S × Option (Change × Option S))
  first_response [] s e = none
  first_response (step ∷ steps) s e =
      or_else
        (response (name_of step.from_state) (optional_name step.event) (target_of step.to_state) s
          e)
        (first_response steps s e)

  run_events-append :
      (xs ys : List EventArm) (s : S) (e : E)
      → run_events code (xs ++ ys) s e ≡ or_else (run_events code xs s e) (run_events code ys s e)
  unfolding run_events
  run_events-append [] ys s e = refl
  run_events-append (EventArm.otherwise ∷ xs) ys s e = refl
  run_events-append (EventArm.ignore from event ∷ xs) ys s e =
      ground (arith, run_events-append xs ys s e)
  run_events-append (EventArm.update_if from event handler ∷ xs) ys s e =
      ground (arith, run_events-append xs ys s e)
  run_events-append (EventArm.transition from event handler to ∷ xs) ys s e =
      ground (arith, run_events-append xs ys s e)
  run_events-append (EventArm.decide from event handler ∷ xs) ys s e =
      ground (arith, run_events-append xs ys s e)
  run_events-append (EventArm.update from event handler ∷ xs) ys s e =
      ground (arith, run_events-append xs ys s e)

  module _ (events : List EventArm) (changes : List ChangeArm) (action : Bool) (s : S) (e : E) where
    run_stay :
        (from event : Option String) (n : ℕ)
        → event_arms lower from event none n action ≡ ok (events, changes)
        → run_events code events s e ≡ response from event stay s e
    unfolding event_arms run_events
    run_stay (some from) (some event) n h = rw (← first_of_ok h)
    run_stay none (some event) n h = rw (← first_of_ok h)
    run_stay from none n h = rw (← first_of_ok h)

    run_move :
        (from event : Option String) (to : String)
        → event_arms lower from event (some to) 1 action ≡ ok (events, changes)
        → run_events code events s e ≡ response from event (move to) s e
    unfolding event_arms run_events
    run_move (some from) (some event) to h = rw (← first_of_ok h)
    run_move none (some event) to h = rw (← first_of_ok h)
    run_move (some from) none to h = rw (← first_of_ok h)
    run_move none none to h = cc

    run_choose :
        (from event : Option String) (to : String) (n : ℕ)
        → event_arms lower from event (some to) (suc (suc n)) action ≡ ok (events, changes)
        → run_events code events s e ≡ response from event choose s e
    unfolding event_arms run_events
    run_choose (some from) (some event) to n h = rw (← first_of_ok h)
    run_choose none (some event) to n h = rw (← first_of_ok h)
    run_choose (some from) none to n h = rw (← first_of_ok h)
    run_choose none none to n h = cc

    run_targets :
        (from event to : Option String) (n : ℕ) (ts : List Ty)
        → first_target ts ≡ ok (to, n)
        → event_arms lower from event to n action ≡ ok (events, changes)
        → run_events code events s e ≡ response from event (targets_of ts) s e
    unfolding first_target
    run_targets from event to n [] t h = cc
    run_targets from event to n (x ∷ []) t h =
        let (i, named, t') = >>=-eq-ok (ident_from_type x) _ t in
        let pair = ok-injective t' in
        rw (ident_from_type-eq-ok x i named) (
          run_move from event i (
            rw (ap (λ (p : Option String × ℕ). p.0) pair, ap (λ (p : Option String × ℕ). p.1) pair)
              h))
    run_targets from event to n (x ∷ y ∷ rest) t h =
        let (i, named, t') = >>=-eq-ok (ident_from_type x) _ t in
        let pair = ok-injective t' in
        run_choose from event i (length rest) (
          rw (ap (λ (p : Option String × ℕ). p.0) pair, ap (λ (p : Option String × ℕ). p.1) pair) h)

    run_target :
        (from event to : Option String) (n : ℕ) (ts : Option TargetStates)
        → target ts ≡ ok (to, n)
        → event_arms lower from event to n action ≡ ok (events, changes)
        → run_events code events s e ≡ response from event (target_of ts) s e
    unfolding target
    run_target from event to n none t h =
        let pair = ok-injective t in
        run_stay from event 0 (
          rw (ap (λ (p : Option String × ℕ). p.0) pair, ap (λ (p : Option String × ℕ). p.1) pair) h)
    run_target from event to n (some ts) t h = run_targets from event to n ts.states t h

  run_events-step_arms :
      (step : Step) (a : Arms) (s : S) (e : E)
      → step_arms lower step ≡ ok a
      → run_events code a.events s e
        ≡ response
            (name_of step.from_state)
            (optional_name step.event)
            (target_of step.to_state)
            s
            e
  run_events-step_arms step a s e h =
      let p = step_arms-eq-ok lower step a h in
      rw
        (
          ← p.result,
          state_or_any-eq-ok step.from_state p.from p.from_ok,
          optional_ident-eq-ok step.event p.event p.event_ok,
        )
        (run_target p.events p.changes step.on_change s e p.from p.event p.to p.count step.to_state
          p.target_ok p.arms_ok)

  run_events-steps_arms :
      (steps : List Step) (a : Arms) (s : S) (e : E)
      → steps_arms lower steps ≡ ok a
      → run_events code a.events s e ≡ first_response steps s e
  run_events-steps_arms [] a s e h = rw (← steps_arms-nil lower a h) (unfold run_events in refl)
  run_events-steps_arms (step ∷ steps) a s e h =
      let p = steps_arms-eq-ok lower step steps a h in
      rw (← p.result) (
        run_events-append p.head.events p.tail.events s e
        ∙ ap₂ or_else (run_events-step_arms step p.head s e p.head_ok)
            (run_events-steps_arms steps p.tail s e p.tail_ok))

  -- The `on_event` that is generated, where the expansion succeeds, is the table of the
  -- description: the first declared step whose state, or `_`, and whose event fit calls its handler
  -- (one that updates the state in place, gives the one state to move to, or chooses, by the number
  -- of target states), and its change and new state are taken over. Where no step fits, the state
  -- stays and there is no change.
  pub generated-on_event :
      (fsm : FsmItem) (x : Expansion) (s : S) (e : E)
      → expand_arms lower fsm ≡ ok x
      → (generated code x).on_event s e ≡ settle (or_none (s, none) (first_response fsm.steps s e))
  unfolding generated
  generated-on_event fsm x s e h =
      let p = expand_arms-eq-ok lower fsm x h in
      rw
        (
          ← p.result,
          run_events-append p.arms.events p.events s e,
          run_events-steps_arms fsm.steps p.arms s e p.arms_ok,
        )
        (ap settle (
          or_none-or_else (s, none) (first_response fsm.steps s e) (run_events code p.events s e)
            (Ignoring-quiet code p.events s e
              (event_rest-Ignoring fsm.ignore_events p.events p.events_ok))))
