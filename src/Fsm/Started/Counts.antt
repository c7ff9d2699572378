-- ===== src/Fsm/Started/Counts.antt =====
-- What the counters of the test machine of edfsm/src/lib.rs are, for any inputs.
use Prim.Native.Nat.{◌%◌, ◌^◌}
use edfsm.Prelude.{ℕ, ◌+◌, ◌≤◌, ◌<◌, ◌≡◌, List, [], ◌∷◌, length, arith}
use edfsm.Fsm.{Input, command, event, step}
use edfsm.Fsm.Started.{
  State, idle, running, Command, start, stop, Event, EffectHandlers, started, stopped, run, fresh,
  starts, stops, on, incremented, start_something, stop_something, enter_running, for_command,
  on_event, on_entry, on_arrival, my_fsm,
}

-- Every counter is a `u32`.
abbrev pub InRange : EffectHandlers → Type 0
InRange se =
    (se.started < 2 ^ 32) × (se.stopped < 2 ^ 32) × (se.transitioned_stopped_to_started < 2 ^ 32)

-- What a run from a state and an effector leaves: starts and stops alternate, and each counter has
-- grown, modulo its range, by the events that it is for.
abbrev pub Accounts : State → EffectHandlers → List Event × State × EffectHandlers → Type 0
Accounts s se (es, s', se') =
    (on s' + stops es ≡ on s + starts es)
    × (se'.started ≡ (se.started + starts es) % 2 ^ 32)
    × (se'.stopped ≡ (se.stopped + stops es) % 2 ^ 32)
    × (se'.transitioned_stopped_to_started
        ≡ (se.transitioned_stopped_to_started + starts es) % 2 ^ 32)

bumped : (n k a : ℕ) → a ≡ (incremented n + k) % 2 ^ 32 → a ≡ (n + (1 + k)) % 2 ^ 32
unfolding incremented
bumped n k a h = omega (arith, h)

incremented_range : (n : ℕ) → incremented n < 2 ^ 32
unfolding incremented
incremented_range n = omega arith

-- One start, and one stop, in front of a run.
went_on :
    (se : EffectHandlers) (r : List Event × State × EffectHandlers)
    → Accounts running (start_something (enter_running se)) r
    → Accounts idle se (started ∷ r.0, r.1, r.2)
unfolding start_something enter_running
went_on se (es, s', se') (balance, begun, ended, entered) = (
  omega (arith, balance),
  bumped se.started (starts es) se'.started begun,
  ended,
  bumped se.transitioned_stopped_to_started (starts es) se'.transitioned_stopped_to_started entered,
)

went_off :
    (se : EffectHandlers) (r : List Event × State × EffectHandlers)
    → Accounts idle (stop_something se) r
    → Accounts running se (stopped ∷ r.0, r.1, r.2)
unfolding stop_something
went_off se (es, s', se') (balance, begun, ended, entered) =
    (omega (arith, balance), begun, bumped se.stopped (stops es) se'.stopped ended, entered)

started_range : (se : EffectHandlers) → InRange se → InRange (start_something (enter_running se))
unfolding start_something enter_running
started_range se h =
    (incremented_range se.started, h.1, incremented_range se.transitioned_stopped_to_started)

stopped_range : (se : EffectHandlers) → InRange se → InRange (stop_something se)
unfolding stop_something
stopped_range se h = (h.0, incremented_range se.stopped, h.2)

pub run-Accounts :
    (s : State) (is : List (Input Command Event)) (se : EffectHandlers)
    → InRange se
    → Accounts s se (run s is se)
unfolding run for_command on_event on_entry on_arrival my_fsm step
run-Accounts s [] se h = ground arith
run-Accounts idle (command start ∷ is) se h =
    went_on se (run running is (start_something (enter_running se)))
      (run-Accounts running is (start_something (enter_running se)) (started_range se h))
run-Accounts idle (command stop ∷ is) se h = run-Accounts idle is se h
run-Accounts idle (event started ∷ is) se h =
    went_on se (run running is (start_something (enter_running se)))
      (run-Accounts running is (start_something (enter_running se)) (started_range se h))
run-Accounts idle (event stopped ∷ is) se h = run-Accounts idle is se h
run-Accounts running (command start ∷ is) se h = run-Accounts running is se h
run-Accounts running (command stop ∷ is) se h =
    went_off se (run idle is (stop_something se))
      (run-Accounts idle is (stop_something se) (stopped_range se h))
run-Accounts running (event started ∷ is) se h = run-Accounts running is se h
run-Accounts running (event stopped ∷ is) se h =
    went_off se (run idle is (stop_something se))
      (run-Accounts idle is (stop_something se) (stopped_range se h))

-- No more starts and stops than inputs.
starts-run :
    (s : State) (is : List (Input Command Event)) (se : EffectHandlers)
    → starts (run s is se).0 + stops (run s is se).0 ≤ length is
unfolding run for_command on_event on_entry on_arrival my_fsm step
starts-run s [] se = omega arith
starts-run idle (command start ∷ is) se =
    omega (arith, starts-run running is (start_something (enter_running se)))
starts-run idle (command stop ∷ is) se = omega (arith, starts-run idle is se)
starts-run idle (event started ∷ is) se =
    omega (arith, starts-run running is (start_something (enter_running se)))
starts-run idle (event stopped ∷ is) se = omega (arith, starts-run idle is se)
starts-run running (command start ∷ is) se = omega (arith, starts-run running is se)
starts-run running (command stop ∷ is) se = omega (arith, starts-run idle is (stop_something se))
starts-run running (event started ∷ is) se = omega (arith, starts-run running is se)
starts-run running (event stopped ∷ is) se = omega (arith, starts-run idle is (stop_something se))

-- Fewer than 2 ^ 32 inputs to a new machine cannot overflow a counter: each is the number of the
-- events that it is for among those that the steps return, and the machine runs exactly where one
-- start more than stops is returned.
pub counters_exact :
    (is : List (Input Command Event))
    → length is < 2 ^ 32
    → let (es, s, se) = run idle is fresh in
      (se.started ≡ starts es)
      × (se.stopped ≡ stops es)
      × (se.transitioned_stopped_to_started ≡ starts es)
      × (on s + stops es ≡ starts es)
counters_exact is h =
    let (balance, begun, ended, entered) =
      run-Accounts idle is fresh (omega arith, omega arith, omega arith) in
    let bound = starts-run idle is fresh in
    (
      omega (arith, begun, bound),
      omega (arith, ended, bound),
      omega (arith, entered, bound),
      omega (arith, balance),
    )
