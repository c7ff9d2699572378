-- ===== src/Machine/Task/Counter.antt =====
-- The counter of edfsm-machine/tests/fixtures/mod.rs.
use edfsm.Prelude.{ℕ, ◌+◌, ◌==◌, Bool, true, false, Option, none, some, List, if◌then◌else◌}
use Prim.Native.Nat.{◌%◌}
use edfsm.Fsm.{Input, Change, transitioned, updated, Fsm, Terminating}
use edfsm.Machine.Output.{OutputBuffer, push, output_drain}
use edfsm.Machine.Task.{Channel}

pub data Command : Type 0 where
  print : Command
  assert : ℕ → Command

pub data Event : Type 0 where
  tick reset stop : Event

pub data Output : Type 0 where
  tock : Output

-- the `i32` of the fixture, which no test takes past 100
abbrev pub on_event : ℕ → Event → ℕ × Option Change
on_event n tick = (n + 1, some updated)
on_event n reset = if n == 0 then (n, none) else (0, some updated)
on_event n stop = (n, some transitioned)

abbrev pub on_change : ℕ → Event → OutputBuffer Output → Change → OutputBuffer Output
on_change n e se c = if n % 10 == 0 then push se tock else se

-- No command emits an event. `Assert` panics where the counts differ; what is put down is a run in
-- which they do not.
abbrev pub counter : Fsm ℕ Command Event (OutputBuffer Output)
counter = record { for_command = λ n c se. (none, se); on_event = on_event; on_change = on_change }

abbrev pub is_stop : Event → Bool
is_stop stop = true
is_stop _ = false

abbrev pub ending : Terminating Event
ending = record { terminating = is_stop }

-- a channel whose sender is a token, and that delivers a given sequence
abbrev pub scripted :
    List (Input Command Event) → Channel (Input Command Event) ℕ (List (Input Command Event))
scripted inputs = record { channel = λ n. (n, inputs); received = λ rx. rx }
