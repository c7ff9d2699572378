-- ===== src/Machine/Task/Interface.antt =====
-- The trait `Machine` of edfsm-machine/src/lib.rs: all that the callers of `machine` can see.
use edfsm.Prelude.{Option}
use edfsm.Fsm.{Input, Fsm, Init, Terminating, Drain}
use edfsm.Machine.Action.{Result, Error}
use edfsm.Machine.Adapter.{Adapter}
use edfsm.Machine.Task.{
  Log, Channel, Template, Run, input, with_output, merge_output, with_event_log, merge_event_log,
  task,
}

-- trait Machine. Each method that connects gives a machine back; `task` is run from the default
-- state and a world.
pub record Machine {ℓ} (T : Type (ℓ + 1)) (W S E SE O Tx : Type ℓ) : Type (ℓ + 1) where
  pub input : T → Option Tx
  pub with_output : T → Adapter W O → T
  pub merge_output : T → Adapter W O → T
  pub with_event_log : T → Log W E → T
  pub merge_event_log : T → Adapter W E → T
  pub task : T → S → W → Result (Unit {0}) Error × Run S SE W

-- impl Machine<M> for Template<M, N, O, P>
abbrev pub template_machine {ℓ} :
    {S C E SE O W Tx Rx : Type ℓ}
    → Fsm S C E SE
    → Drain SE O
    → Terminating E
    → Init S SE
    → Channel (Input C E) Tx Rx
    → Machine (Template W E SE O Tx Rx) W S E SE O Tx
template_machine m d term init ch = record {
  input = input;
  with_output = with_output;
  merge_output = merge_output;
  with_event_log = with_event_log;
  merge_event_log = merge_event_log;
  task = task m d term init ch;
}
