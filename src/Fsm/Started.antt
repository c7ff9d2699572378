-- ===== src/Fsm/Started.antt =====
-- The machine in the test module of edfsm/src/lib.rs, which is written by hand as the macro would
-- generate it: started and stopped in turn, with effects that count in a `u32`, which wraps.
pub mod Counts
pub mod Script
mod Tests
use Prim.Native.Nat.{◌%◌, ◌^◌}
use edfsm.Prelude.{ℕ, ◌+◌, ◌*◌, ◌≡◌, refl, Option, none, some, List, [], ◌∷◌, arith}
use edfsm.Fsm.{Input, command, event, Change, transitioned, updated, Fsm, step}

-- enum State; the structs in the variants are empty
pub data State : Type 0 where
  idle running : State

-- enum Command
pub data Command : Type 0 where
  start stop : Command

-- enum Event
pub data Event : Type 0 where
  started stopped : Event

-- struct EffectHandlers
pub record EffectHandlers : Type 0 where
  pub started : ℕ
  pub stopped : ℕ
  pub transitioned_stopped_to_started : ℕ

-- `+= 1`, in the profile that wraps
unfoldable pub incremented : ℕ → ℕ
incremented n = (n + 1) % 2 ^ 32

unfoldable pub start_something : EffectHandlers → EffectHandlers
start_something se = record se { started = incremented se.started }

unfoldable pub stop_something : EffectHandlers → EffectHandlers
stop_something se = record se { stopped = incremented se.stopped }

unfoldable pub enter_running : EffectHandlers → EffectHandlers
enter_running se = record se {
  transitioned_stopped_to_started = incremented se.transitioned_stopped_to_started;
}

-- `for_running_stop` and `for_idle_start` leave the effector alone
unfoldable pub for_command : State → Command → EffectHandlers → Option Event × EffectHandlers
for_command running stop se = (some stopped, se)
for_command idle start se = (some started, se)
for_command _ _ se = (none, se)

unfoldable pub on_event : State → Event → State × Option Change
on_event running stopped = (idle, some transitioned)
on_event idle started = (running, some transitioned)
on_event s e = (s, none)

-- `on_entry_running` at a transition
unfoldable pub on_entry : State → Change → EffectHandlers → EffectHandlers
unfolding enter_running
on_entry running transitioned se = enter_running se
on_entry _ _ se = se

-- `on_idle_stopped` and `on_running_started`
unfoldable pub on_arrival : State → Event → EffectHandlers → EffectHandlers
unfolding start_something stop_something
on_arrival idle stopped se = stop_something se
on_arrival running started se = start_something se
on_arrival _ _ se = se

unfoldable pub my_fsm : Fsm State Command Event EffectHandlers
unfolding for_command on_event on_entry on_arrival
my_fsm = record {
  for_command = for_command;
  on_event = on_event;
  on_change = λ s e se change. on_arrival s e (on_entry s change se);
}

abbrev pub fresh : EffectHandlers
fresh = record { started = 0; stopped = 0; transitioned_stopped_to_started = 0 }

-- The events that a run of steps returns, and the state and the effector that it leaves.
abbrev pub returned : Option Event → List Event → List Event
returned none es = es
returned (some e) es = e ∷ es

unfoldable pub run :
    State → List (Input Command Event) → EffectHandlers → List Event × State × EffectHandlers
unfolding step
run s [] se = ([], s, se)
run s (i ∷ is) se =
    let (e, s', se') = step my_fsm s i se in
    let (es, s'', se'') = run s' is se' in (returned e es, s'', se'')

-- what the events count as, without a bound
abbrev pub starts : List Event → ℕ
starts [] = 0
starts (started ∷ es) = 1 + starts es
starts (stopped ∷ es) = starts es

abbrev pub stops : List Event → ℕ
stops [] = 0
stops (started ∷ es) = stops es
stops (stopped ∷ es) = 1 + stops es

-- one where running
abbrev pub on : State → ℕ
on idle = 0
on running = 1
