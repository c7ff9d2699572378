-- ===== src/Machine/Task/Restart/Tests.antt =====
-- Restarts of the counter of edfsm-machine/tests/fixtures/mod.rs.
use edfsm.Prelude.{ℕ, ◌≡◌, refl, List, [], ◌∷◌}
use edfsm.Fsm.{Input, command, event, replay, step}
use edfsm.Machine.Action.{ok}
use edfsm.Machine.Output.{default, output_drain, output_init}
use edfsm.Machine.Task.Trace.{Ledger}
use edfsm.Machine.Task.Restart.{IsRenewed, session, sessions, all_of, sessions-session}
use edfsm.Machine.Task.Tests.{counter-IsQuiet}
use edfsm.Machine.Task.Counter.{
  Command, print, Event, tick, reset, Output, counter, ending, scripted,
}

counter-IsRenewed : IsRenewed {S = ℕ} output_drain output_init (default {A = Output})
unfolding output_drain output_init default
counter-IsRenewed = record { renewed = λ se. refl; silent = λ s. refl }

-- a start, one with nothing to do, and one that finds nine ticks in its log and a tenth in its channel
abbrev parts : List (List (Input Command Event))
parts =
    (command print ∷ event tick ∷ event tick ∷ [])
    ∷ []
    ∷ (event tick ∷ event reset ∷ event reset ∷ [])
    ∷ []

abbrev seven : Ledger Event Output
seven = record {
  logged = tick ∷ tick ∷ tick ∷ tick ∷ tick ∷ tick ∷ tick ∷ [];
  notified = [];
  sent = [];
}

sessions-session_example :
    let (result, run) =
      session counter output_drain ending output_init scripted default 10 0 (all_of parts) seven in
    let books =
      sessions counter output_drain ending output_init scripted default 10 0 parts seven in
    (result ≡ ok tt) × (run.world ≡ books) × (run.state ≡ replay counter 0 books.logged)
unfolding replay step default
sessions-session_example =
    sessions-session counter output_drain ending output_init scripted default 10 0 counter-IsRenewed
      (λ l. refl) parts seven counter-IsQuiet (refl, (refl, (refl, (refl, (refl, (refl, tt))))))
