-- ===== src/Fsm/Step.antt =====
-- What `step` of edfsm/src/lib.rs promises of any machine.
use edfsm.Prelude.{◌≡◌, refl, Option, none, some, List, [], ◌∷◌, ◌++◌, arith}
use edfsm.Fsm.{Input, command, event, Change, Fsm, emitted, changed, applied, step, replay}

-- The event that a step returns, as a list.
abbrev pub reported {ℓ} : {E : Type ℓ} → Option E → List E
reported none = []
reported (some e) = e ∷ []

module _ {ℓ} {S C E SE : Type ℓ} (m : Fsm S C E SE) where
  pub replay-append : (s : S) (es fs : List E) → replay m s (es ++ fs) ≡ replay m (replay m s es) fs
  unfolding replay
  replay-append s [] fs = refl
  replay-append s (e ∷ es) fs = replay-append (m.on_event s e).0 es fs

  -- An event that changes nothing leaves the state as it is: what event sourcing asks of `on_event`.
  pub record IsQuiet : Type ℓ where
    pub quiet : (s : S) (e : E) → (m.on_event s e).1 ≡ none → (m.on_event s e).0 ≡ s

  module _ (q : IsQuiet) where
    applied-replay :
        (s : S) (o : Option E) (se : SE)
        → (applied m s o se).1 ≡ replay m s (reported (applied m s o se).0)
    unfolding replay
    applied-replay s (some e) se = ground (arith, q.quiet s e)
    applied-replay s none se = refl

    -- Of a quiet machine, the event that `step` returns accounts for the whole change of state: replaying it, or
    -- nothing where none is returned, leads to the state that `step` leaves.
    pub step-replay :
        (s : S) (i : Input C E) (se : SE)
        → (step m s i se).1 ≡ replay m s (reported (step m s i se).0)
    unfolding step
    step-replay s i se = applied-replay s (emitted m s i se).0 (emitted m s i se).1

  pub changed-state : (e : E) (t : S) (c : Option Change) (se : SE) → (changed m e (t, c) se).1 ≡ t
  changed-state e t none se = refl
  changed-state e t (some c) se = refl

  -- The state behind a step whose first half gave the event `e`, whatever it returns.
  pub step-state :
      (s : S) (i : Input C E) (e : E) (se : SE)
      → (emitted m s i se).0 ≡ some e
      → (step m s i se).1 ≡ (m.on_event s e).0
  unfolding step
  step-state s i e se h =
      rw (h, applied) (changed-state e (m.on_event s e).0 (m.on_event s e).1 (emitted m s i se).1)

  -- Given a command, `step` does what it would do given the event that `for_command` emits.
  pub step_command_as_event :
      (s : S) (c : C) (e : E) (se : SE)
      → (m.for_command s c se).0 ≡ some e
      → step m s (command c) se ≡ step m s (event e) (m.for_command s c se).1
  unfolding step
  step_command_as_event s c e se h = ground arith
