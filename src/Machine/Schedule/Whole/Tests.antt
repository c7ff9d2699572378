-- ===== src/Machine/Schedule/Whole/Tests.antt =====
-- A whole task between its senders: the counter, its log and its channel of lists.
use edfsm.Prelude.{arith, ℕ, ◌≡◌, refl, none, some, List, [], ◌∷◌}
use edfsm.Fsm.{Terminating, event, replay}
use edfsm.Fsm.Step.{IsQuiet}
use edfsm.Machine.Action.{ok}
use edfsm.Machine.Output.{OutputBuffer, default, drain_all, output_drain, output_init}
use edfsm.Machine.Adapter.{vec, notify, notify_all, history, feed, hydrator}
use edfsm.Machine.Task.{Channel, Template, hydrate, initialise, flush, task}
use edfsm.Machine.Task.Trace.{logged_place, notified_place, sent_place, vec_log}
use edfsm.Machine.Task.Durable.{Spares, vec-IsJournal}
use edfsm.Machine.Schedule.Tests.{
  Tick, tick, stop, is_stop, counter, Books, Message, fresh, closing_reach, closing, stopped_at,
  stopped_result,
}
use edfsm.Machine.Queue.Line.{line, line-IsFifo}
use edfsm.Machine.Schedule.{task as move_on, result, drive, launched, opened}
use edfsm.Machine.Schedule.Whole.{prepared, wiring, scheduled_task_returns, scheduled-replay}

abbrev accepted : List Message
accepted = event tick ∷ event stop ∷ []

abbrev scripted : Channel Message ℕ (List Message)
scripted = record { channel = λ n. (n, accepted); received = λ rx. rx }

abbrev template : Template Books Tick (OutputBuffer ℕ) ℕ ℕ (List Message)
template = record {
  sender = none;
  receiver = accepted;
  effects = default;
  log = vec_log;
  output = vec sent_place;
  events = vec notified_place;
}

abbrev ending : Terminating Tick
ending = record { terminating = is_stop }

abbrev blank : Books
blank = record { logged = []; notified = []; sent = [] }

template-prepared :
    prepared counter output_drain ending output_init template 0 blank ≡ (ok tt, fresh)
unfolding prepared hydrate initialise flush feed history notify_all hydrator output_drain drain_all
    output_init default
template-prepared = refl

counter-IsQuiet : IsQuiet counter
counter-IsQuiet = record { quiet = λ n e h. cc }

events-Spares : Spares template.log template.events
unfolding history notify
events-Spares = record { spares = λ e w. refl }

output-Spares : Spares template.log template.output
unfolding history notify
output-Spares = record { spares = λ e w. refl }

scheduled_task_returns_example :
    let after =
      drive (wiring counter output_drain ending output_init template) (line Message) 6 closing in
    let (res, run) = task counter output_drain ending output_init scripted template 0 blank in
    (result after.phase ≡ some res) × (after.run ≡ run)
unfolding launched opened
scheduled_task_returns_example =
    scheduled_task_returns counter output_drain ending output_init scripted template 0
      (line Message) (line-IsFifo Message) 1 2 (omega arith) blank fresh template-prepared
      closing_reach refl refl

scheduled-replay_example :
    stopped_at.run.state ≡ replay counter 0 (history template.log.source stopped_at.run.world)
scheduled-replay_example =
    scheduled-replay counter output_drain ending output_init scripted template 0 (line Message)
      (line-IsFifo Message) 1 2 (omega arith) blank fresh counter-IsQuiet
      (vec-IsJournal logged_place) events-Spares output-Spares template-prepared
      (move_on (move_on (move_on (move_on (move_on closing_reach))))) stopped_result.0 refl
