-- ===== src/Macros/Expand/Tests.antt =====
-- The expansion of a state machine as in the documentation of edfsm-macros, and the code that is generated.
use Prim.Native.String.{String}
use edfsm.Prelude.{◌≡◌, ◌≢◌, ◌↔◌, refl, none, some, List, [], ◌∷◌}
use edfsm.Fsm.{transitioned}
use edfsm.Macros.Syntax.{ok}
use edfsm.Macros.Expand.{
  ident_from_type, state_or_any, optional_ident, target, first_target, entry_arm, entry_arms,
  command_arms, target_arm, change_arms, event_arms, step_arms, steps_arms, command_rest,
  event_rest, check_trait, expand_arms, unwrapped, expand,
}
use edfsm.Macros.Expand.Run.{run_commands, run_events, run_entries, run_changes, generated}
use edfsm.Macros.Expand.Described.{described, generated-described}
use edfsm.Macros.Expand.Coverage.{expand_covers}
use edfsm.Macros.Expand.WellFormed.{Succeeds, WellFormed}
use edfsm.Macros.Expand.Reading.{expand-WellFormed}
use edfsm.Macros.Expand.Readable.{readable, readable-Reads}
use edfsm.Macros.Expand.Sample.{
  Co, Ev, same, two_states, two_states_expansion, handlers, idle, running, started,
}

two_states_expands : expand readable same two_states ≡ ok two_states_expansion
unfolding expand expand_arms unwrapped check_trait entry_arm entry_arms step_arms steps_arms
    state_or_any optional_ident target first_target command_arms event_arms target_arm change_arms
    command_rest event_rest ident_from_type
two_states_expands = refl

-- started, the machine runs and its entry handler has been called
start_runs :
    (generated handlers two_states_expansion).on_event idle started ≡ (running, some transitioned)
unfolding generated run_events
start_runs = refl

start_enters :
    (generated handlers two_states_expansion).on_change running started [] transitioned
    ≡ "on_entry_Running" ∷ []
unfolding generated run_entries run_changes
start_enters = refl

expand_covers_example :
    ((c : Co) (log : List String)
      → run_commands handlers two_states_expansion.arms.commands running c log ≢ none)
    × ((e : Ev) → run_events handlers two_states_expansion.arms.events running e ≢ none)
expand_covers_example =
    expand_covers handlers readable same two_states two_states_expansion two_states_expands refl
      refl running

expand-WellFormed_example : Succeeds (expand readable same two_states) ↔ WellFormed two_states
expand-WellFormed_example =
    expand-WellFormed same readable two_states readable-Reads
      (record { state = (refl, tt); command = (refl, tt); event = (refl, tt) })

generated-described_example :
    generated handlers two_states_expansion
    ≡ described handlers same two_states.entry_handlers two_states.steps
generated-described_example =
    generated-described handlers same readable two_states two_states_expansion two_states_expands
