-- ===== src/Machine/Task/Build/Tests.antt =====
-- A machine whose output is replaced and then merged, as in edfsm-machine/tests/connections.rs.
use edfsm.Prelude.{ℕ, ◌≡◌, List, [], ◌∷◌}
use edfsm.Fsm.{Input}
use edfsm.Machine.Output.{OutputBuffer, default, output_drain, output_init}
use edfsm.Machine.Adapter.{placeholder, vec, notify}
use edfsm.Machine.Task.{Template, machine_with_effects}
use edfsm.Machine.Task.Interface.{template_machine}
use edfsm.Machine.Task.Trace.{Ledger, notified_place, sent_place, vec_log}
use edfsm.Machine.Task.Counter.{Command, Event, Output, counter, ending, scripted}
use edfsm.Machine.Task.Build.{
  Connect, output, more_output, event_log, more_events, build, notify_each, build_tells,
}

abbrev Books : Type 0
Books = Ledger Event Output

abbrev wires : List (Connect Books Event Output)
wires =
    more_output (vec sent_place)
    ∷ output placeholder
    ∷ more_output (vec sent_place)
    ∷ event_log vec_log
    ∷ more_events (vec notified_place)
    ∷ []

abbrev wired : Template Books Event (OutputBuffer Output) Output ℕ (List (Input Command Event))
wired =
    build (template_machine counter output_drain ending output_init (scripted [])) wires
      (machine_with_effects (scripted []) default 10)

build_tells_example :
    ((o : Output) (w : Books)
      → notify wired.output o w ≡ notify_each (placeholder ∷ vec sent_place ∷ []) o w)
    × ((e : Event) (w : Books)
        → notify wired.events e w ≡ notify_each (vec notified_place ∷ []) e w)
    × (wired.log ≡ vec_log)
build_tells_example =
    build_tells counter output_drain ending output_init (scripted []) default 10 wires
