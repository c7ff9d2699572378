-- ===== src/Machine/Task/Tests.antt =====
-- The theorems about the task of edfsm-machine/src/lib.rs, at the counter of edfsm-machine/tests.
use edfsm.Prelude.{ℕ, ◌≡◌, refl, arith, none, some, List, [], ◌∷◌}
use edfsm.Fsm.{Input, command, event, step, replay}
use edfsm.Fsm.Step.{IsQuiet}
use edfsm.Machine.Action.{Result, Error, ok}
use edfsm.Machine.Output.{OutputBuffer, push, default, output_drain, output_init}
use edfsm.Machine.Adapter.{vec, notify, clone_notify, notify_all, history, feed, hydrator}
use edfsm.Machine.Task.{
  Template, Run, hydrate, initialise, flush, record_event, round, main_loop, task,
}
use edfsm.Machine.Task.Durable.{Spares, vec-IsJournal, task-replay}
use edfsm.Machine.Task.Trace.{
  Ledger, logged_place, notified_place, sent_place, vec_log, trace, assembled, task-trace,
}
use edfsm.Machine.Task.Counter.{
  Command, print, Event, tick, reset, stop, Output, on_event, counter, ending, scripted,
}

abbrev nothing : Ledger Event Output
nothing = record { logged = []; notified = []; sent = [] }

abbrev script : List (Input Command Event)
script =
    event tick
    ∷ event reset
    ∷ event reset
    ∷ command print
    ∷ event tick
    ∷ event stop
    ∷ event tick
    ∷ []

-- the second reset changes nothing and is not logged, and what follows `stop` is not read
script-trace :
    (trace counter output_drain ending 0 default script).emitted ≡ tick ∷ reset ∷ tick ∷ stop ∷ []
unfolding trace step output_drain default push
script-trace = refl

task-trace_example :
    task counter output_drain ending output_init
      (scripted script)
      (assembled (scripted script) default 10)
      0
      nothing
    ≡ (
      ok tt,
      record {
        state = (trace counter output_drain ending 0 default script).state;
        effects = (trace counter output_drain ending 0 default script).effects;
        world = record {
          logged = (trace counter output_drain ending 0 default script).emitted;
          notified = (trace counter output_drain ending 0 default script).emitted;
          sent = (trace counter output_drain ending 0 default script).outputs;
        };
      },
    )
unfolding replay output_drain output_init default
task-trace_example =
    task-trace counter output_drain ending output_init (scripted script) default 10 0 nothing

counter_quiet : (n : ℕ) (e : Event) → (on_event n e).1 ≡ none → (on_event n e).0 ≡ n
counter_quiet n tick h = cc
counter_quiet n reset h = ground arith
counter_quiet n stop h = cc

pub counter-IsQuiet : IsQuiet counter
counter-IsQuiet = record { quiet = counter_quiet }

abbrev observed :
    Template (Ledger Event Output) Event (OutputBuffer Output) Output ℕ (List (Input Command Event))
observed = record {
  sender = some 10;
  receiver = script;
  effects = default;
  log = vec_log;
  output = vec sent_place;
  events = vec notified_place;
}

events-Spares : Spares observed.log observed.events
unfolding history notify
events-Spares = record { spares = λ e w. refl }

output-Spares : Spares observed.log observed.output
unfolding history notify
output-Spares = record { spares = λ e w. refl }

abbrev rerun : Result (Unit {0}) Error × Run ℕ (OutputBuffer Output) (Ledger Event Output)
rerun = task counter output_drain ending output_init (scripted script) observed 0 nothing

rerun_done : rerun.0 ≡ ok tt
unfolding task hydrate initialise flush main_loop round record_event feed history clone_notify
    notify notify_all hydrator step output_drain output_init default push
rerun_done = refl

task-replay_example : rerun.1.state ≡ replay counter 0 (history observed.log.source rerun.1.world)
task-replay_example =
    task-replay counter output_drain ending output_init (scripted script) observed 0 nothing
      counter-IsQuiet (vec-IsJournal logged_place) events-Spares output-Spares rerun_done
