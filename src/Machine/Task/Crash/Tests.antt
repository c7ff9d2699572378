-- ===== src/Machine/Task/Crash/Tests.antt =====
-- A log that is full after two events, and a counter whose task ends in its error.
use edfsm.Prelude.{
  ℕ, ◌+◌, ◌≡◌, refl, Bool, true, false, Option, none, some, List, [], ◌∷◌, ◌++◌, ltb, length,
}
use edfsm.Fsm.{Input, event, updated, Fsm, Terminating, step, replay}
use edfsm.Fsm.Step.{IsQuiet, reported}
use edfsm.Machine.Action.{Result, Error, channel_closed, Exec, ok, err}
use edfsm.Machine.Output.{OutputBuffer, push, default, output_drain, output_init}
use edfsm.Machine.Adapter.{
  placeholder, implemented, vec, notify, clone_notify, notify_all, Feed, history, feed, hydrator,
}
use edfsm.Machine.Task.{
  Log, Channel, Template, Run, hydrate, initialise, flush, record_event, round, main_loop, task,
}
use edfsm.Machine.Task.Durable.{IsJournal, Spares}
use edfsm.Machine.Task.Trace.{Ledger, logged_place, sent_place}
use edfsm.Machine.Task.Crash.{IsAtomic, task_crash}

data Tick : Type 0 where
  tick : Tick

abbrev counter : Fsm ℕ (Unit {0}) Tick (OutputBuffer ℕ)
counter = record {
  for_command = λ n c se. (none, se);
  on_event = λ n e. (n + 1, some updated);
  on_change = λ n e se c. push se n;
}

counter-IsQuiet : IsQuiet counter
counter-IsQuiet = record { quiet = λ n e h. cc }

abbrev endless : Terminating Tick
endless = record { terminating = λ e. false }

abbrev inputs : List (Input (Unit {0}) Tick)
inputs = event tick ∷ event tick ∷ event tick ∷ event tick ∷ []

abbrev given : Channel (Input (Unit {0}) Tick) (Unit {0}) (List (Input (Unit {0}) Tick))
given = record { channel = λ n. (tt, inputs); received = λ rx. rx }

abbrev Books : Type 0
Books = Ledger Tick ℕ

abbrev put : Bool → Tick → Exec Books
put true e w = (ok tt, record w { logged = w.logged ++ e ∷ [] })
put false e w = (err channel_closed, w)

abbrev two_at_most : Tick → Exec Books
two_at_most e w = put (ltb (length w.logged) 2) e w

abbrev small_log : Log Books Tick
small_log = record { adapter = implemented two_at_most; source = Feed.vec logged_place }

put-ok :
    (b : Bool) (e : Tick) (w : Books)
    → (put b e w).0 ≡ ok tt
    → (put b e w).1.logged ≡ w.logged ++ e ∷ []
put-ok true e w h = refl
put-ok false e w h = cc

put-err :
    (b : Bool) (e : Tick) (w : Books) (x : Error)
    → (put b e w).0 ≡ err x
    → (put b e w).1.logged ≡ w.logged
put-err true e w x h = cc
put-err false e w x h = refl

small_log-IsJournal : IsJournal small_log
unfolding history clone_notify notify
small_log-IsJournal = record { appends = λ e w h. put-ok (ltb (length w.logged) 2) e w h }

small_log-IsAtomic : IsAtomic small_log
unfolding history clone_notify notify
small_log-IsAtomic = record { refuses = λ e w x h. put-err (ltb (length w.logged) 2) e w x h }

abbrev small_machine :
    Template Books Tick (OutputBuffer ℕ) ℕ (Unit {0}) (List (Input (Unit {0}) Tick))
small_machine = record {
  sender = some tt;
  receiver = inputs;
  effects = default;
  log = small_log;
  output = vec sent_place;
  events = placeholder;
}

events-Spares : Spares small_machine.log small_machine.events
unfolding history notify
events-Spares = record { spares = λ e w. refl }

output-Spares : Spares small_machine.log small_machine.output
unfolding history notify
output-Spares = record { spares = λ e w. refl }

abbrev empty : Books
empty = record { logged = []; notified = []; sent = [] }

abbrev crashed : Result (Unit {0}) Error × Run ℕ (OutputBuffer ℕ) Books
crashed = task counter output_drain endless output_init given small_machine 0 empty

-- the third event is refused: the state is 3, the log holds two events
crashed_failed : (crashed.0 ≡ err channel_closed) × (crashed.1.state ≡ 3)
unfolding task hydrate initialise flush main_loop round record_event feed history clone_notify
    notify notify_all hydrator step output_drain output_init default push
crashed_failed = (refl, refl)

task_crash_example :
    (o : Option Tick) × (crashed.1.state
      ≡ replay counter 0 (history small_log.source crashed.1.world ++ reported o))
task_crash_example =
    task_crash counter output_drain endless output_init given small_machine 0 empty counter-IsQuiet
      small_log-IsJournal small_log-IsAtomic events-Spares output-Spares
