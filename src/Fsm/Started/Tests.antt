-- ===== src/Fsm/Started/Tests.antt =====
-- The assertions of `test_step` in edfsm/src/lib.rs, and the counters at its commands.
use edfsm.Prelude.{◌+◌, ◌≡◌, refl, none, some, List, [], ◌∷◌, arith}
use edfsm.Fsm.{Input, command, event, step}
use edfsm.Fsm.Started.{
  idle, running, Command, start, stop, Event, started, stopped, EffectHandlers, fresh, run, starts,
  stops, on, incremented, start_something, stop_something, enter_running, for_command, on_event,
  on_entry, on_arrival, my_fsm,
}
use edfsm.Fsm.Started.Script.{commands_tested, events_tested}
use edfsm.Fsm.Started.Counts.{counters_exact}

abbrev begun : EffectHandlers
begun = record { started = 1; stopped = 0; transitioned_stopped_to_started = 1 }

abbrev ended : EffectHandlers
ended = record { started = 1; stopped = 1; transitioned_stopped_to_started = 1 }

start_idle : step my_fsm idle (command start) fresh ≡ (some started, running, begun)
unfolding step my_fsm for_command on_event on_entry on_arrival start_something enter_running
    incremented
start_idle = refl

start_running : step my_fsm running (command start) begun ≡ (none, running, begun)
unfolding step my_fsm for_command
start_running = refl

stop_running : step my_fsm running (command stop) begun ≡ (some stopped, idle, ended)
unfolding step my_fsm for_command on_event on_entry on_arrival stop_something incremented
stop_running = refl

started_again : step my_fsm running (event started) begun ≡ (none, running, begun)
unfolding step my_fsm on_event
started_again = refl

abbrev inputs : List (Input Command Event)
inputs = command start ∷ command start ∷ event stopped ∷ command stop ∷ event started ∷ []

counters_exact_example :
    let (es, s, se) = run idle inputs fresh in
    (se.started ≡ starts es)
    × (se.stopped ≡ stops es)
    × (se.transitioned_stopped_to_started ≡ starts es)
    × (on s + stops es ≡ starts es)
counters_exact_example = counters_exact inputs (omega arith)

test_commands : commands_tested my_fsm ≡ some ended
unfolding commands_tested my_fsm for_command on_event on_entry on_arrival start_something
    stop_something enter_running incremented
test_commands = refl

test_events : events_tested my_fsm ≡ some ended
unfolding events_tested my_fsm for_command on_event on_entry on_arrival start_something
    stop_something enter_running incremented
test_events = refl
