-- ===== src/Machine/Task/Script.antt =====
-- The tests edfsm-machine/tests/connections.rs and terminating.rs: what the task sends and logs for the
-- inputs of their producers.
use edfsm.Prelude.{
  ℕ, zero, suc, ◌+◌, ◌≡◌, refl, ap, ◌∙◌, ◌==◌, arith, List, [], ◌∷◌, ◌++◌, length, Bool-cases, inl,
  inr, if◌then◌else◌,
}
use Prim.Native.Nat.{◌%◌, ◌/◌}
use edfsm.Fsm.{Input, event, step}
use edfsm.Machine.Output.{OutputBuffer, default, push, output_drain}
use edfsm.Machine.Task.Trace.{Trace, trace}
use edfsm.Machine.Task.Counter.{Command, Event, tick, stop, Output, tock, counter, ending}

-- `for _ in 0..n { sender.send(Input::Event(Event::Tick)).await? }`, with what is sent behind it
abbrev ticks : ℕ → List (Input Command Event) → List (Input Command Event)
ticks zero rest = rest
ticks (suc n) rest = event tick ∷ ticks n rest

-- what the counter outputs at a count
abbrev tocks_at : ℕ → List Output
tocks_at n = if n % 10 == 0 then tock ∷ [] else []

-- and for the ticks behind it
abbrev tocks : ℕ → ℕ → List Output
tocks k zero = []
tocks k (suc n) = tocks_at (k + 1) ++ tocks (k + 1) n

abbrev ticked : ℕ → List Event
ticked zero = []
ticked (suc n) = tick ∷ ticked n

length-append : (xs ys : List Output) → length (xs ++ ys) ≡ length xs + length ys
length-append [] ys = omega arith
length-append (x ∷ xs) ys = let h = length-append xs ys in omega arith

step-tocks : (k : ℕ) → length (tocks_at (k + 1)) + k / 10 ≡ (k + 1) / 10
step-tocks k = ground arith

length-tocks : (k n : ℕ) → length (tocks k n) + k / 10 ≡ (k + n) / 10
length-tocks k zero = omega arith
length-tocks k (suc n) =
    let h = length-tocks (k + 1) n in
    let h₁ = step-tocks k in
    let h₂ = length-append (tocks_at (k + 1)) (tocks (k + 1) n) in omega arith

module _ (rest : List (Input Command Event)) where
  abbrev traced : ℕ → ℕ → Trace ℕ Event (OutputBuffer Output) Output
  traced k n = trace counter output_drain ending k default (ticks n rest)

  ticks-traced :
      (k n : ℕ)
      → let t = trace counter output_drain ending (k + n) default rest in
        traced k n ≡ record t { emitted = ticked n ++ t.emitted; outputs = tocks k n ++ t.outputs }
  unfolding trace step default push output_drain
  ticks-traced k zero = let h : k + 0 ≡ k = omega arith in rw h refl
  ticks-traced k (suc n) =
      let h : k + suc n ≡ k + 1 + n = omega arith in
      elim (Bool-cases ((k + 1) % 10 == 0)) [
        | inl e ↦ rw (e, ticks-traced (k + 1) n, h) refl
        | inr e ↦ rw (e, ticks-traced (k + 1) n, h) refl
      ]

-- The producer of terminating.rs, for any number of ticks before the event `Stop` and anything behind
-- it: what the task logs, how often it sends `Tock`, and the count that it ends with.
module _ (n : ℕ) (rest : List (Input Command Event)) where
  abbrev stopped : Trace ℕ Event (OutputBuffer Output) Output
  stopped = trace counter output_drain ending 0 default (ticks n (event stop ∷ rest))

  stop-traced : stopped ≡ record {
    emitted = ticked n ++ stop ∷ [];
    outputs = tocks 0 n ++ tocks_at n;
    state = n;
    effects = default;
  }
  unfolding trace step default push output_drain
  stop-traced =
      let zeroth : 0 + n ≡ n = omega arith in
      ticks-traced (event stop ∷ rest) 0 n ∙ elim (Bool-cases (n % 10 == 0)) [
        | inl e ↦ rw (zeroth, e) refl
        | inr e ↦ rw (zeroth, e) refl
      ]

  length-sent : length stopped.outputs ≡ n / 10 + length (tocks_at n)
  length-sent =
      let h = length-append (tocks 0 n) (tocks_at n) in
      let h₁ = length-tocks 0 n in rw stop-traced (omega arith)

-- `assert_eq!(count, 4)`
terminating_test : (rest : List (Input Command Event)) → length (stopped 49 rest).outputs ≡ 4
terminating_test rest = length-sent 49 rest

-- The producer of connections.rs, up to the command `Assert(99)`, whose `assert_eq!` holds: the count
-- is 99, and `Tock` is sent nine times.
connection_test : ((traced [] 0 99).state ≡ 99) × (length (traced [] 0 99).outputs ≡ 9)
unfolding trace
connection_test = (
  ap (λ (t : Trace ℕ Event (OutputBuffer Output) Output). t.state) (ticks-traced [] 0 99),
  ap (λ (t : Trace ℕ Event (OutputBuffer Output) Output). length t.outputs) (ticks-traced [] 0 99),
)
