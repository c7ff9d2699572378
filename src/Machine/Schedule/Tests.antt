-- ===== src/Machine/Schedule/Tests.antt =====
-- A counter whose task ends at `stop`, and schedules of sends and moves.
use edfsm.Prelude.{ℕ, ◌+◌, ◌≡◌, refl, Bool, true, false, none, some, [], ◌∷◌, arith}
use edfsm.Fsm.{Input, event, updated, Fsm, step}
use edfsm.Machine.Action.{Result, ok, Error}
use edfsm.Machine.Output.{OutputBuffer, push, default, output_drain}
use edfsm.Machine.Adapter.{vec, notify, clone_notify, notify_all}
use edfsm.Machine.Task.{Run, flush, record_event}
use edfsm.Machine.Task.Trace.{Ledger, notified_place, sent_place, vec_log}
use edfsm.Machine.Queue.{View}
use edfsm.Machine.Schedule.{
  Wiring, loop, Sys, result, task_move, Reach, here, task, send, drop, drive, opened, launched,
}
use edfsm.Machine.Queue.Line.{line, line-IsFifo}
use edfsm.Machine.Schedule.Returns.{task_returns}

pub data Tick : Type 0 where
  tick stop : Tick

abbrev pub is_stop : Tick → Bool
is_stop tick = false
is_stop stop = true

abbrev pub counter : Fsm ℕ (Unit {0}) Tick (OutputBuffer ℕ)
counter = record {
  for_command = λ n c se. (none, se);
  on_event = λ n e. (n + 1, some updated);
  on_change = λ n e se c. push se n;
}

abbrev pub Books : Type 0
Books = Ledger Tick ℕ

abbrev pub wired : Wiring ℕ (Unit {0}) Tick (OutputBuffer ℕ) ℕ Books
wired = record {
  machine = counter;
  drain = output_drain;
  terminating = record { terminating = is_stop };
  log = vec_log;
  output = vec sent_place;
  events = vec notified_place;
}

abbrev pub Message : Type 0
Message = Input (Unit {0}) Tick

abbrev pub fresh : Run ℕ (OutputBuffer ℕ) Books
fresh = record {
  state = 0;
  effects = default;
  world = record { logged = []; notified = []; sent = [] };
}

abbrev pub System : Type 0
System = Sys (View Message) ℕ Tick (OutputBuffer ℕ) Books

-- two handles, and room for one message
abbrev pub begun : System
begun = launched (line Message) (opened (line Message) 1 2) fresh

-- a tick is sent and taken, and while the task handles it a stop is sent and the senders are dropped
abbrev pub moving : System
moving =
    task_move wired (line Message)
      (record begun { channel = record { queued = event tick ∷ []; senders = 2; capacity = 1 } })

abbrev pub closing : System
closing = record moving { channel = record { queued = event stop ∷ []; senders = 0; capacity = 1 } }

pub closing_reach : Reach wired (line Message) begun (event tick ∷ event stop ∷ []) closing
unfolding task_move launched opened
closing_reach =
    drop
      (drop
        (send (event stop) (record { queued = event stop ∷ []; senders = 2; capacity = 1 })
          (task (
            send (event tick) (record { queued = event tick ∷ []; senders = 2; capacity = 1 }) here
              refl (omega arith) refl))
          refl (omega arith) refl)
        (omega arith))
      (omega arith)

task_returns_example :
    let u = drive wired (line Message) 6 closing in
    (res : Result (Unit {0}) Error) × (result u.phase ≡ some res)
    × (loop wired (event tick ∷ event stop ∷ []) fresh ≡ (res, u.run))
unfolding launched opened
task_returns_example =
    task_returns wired (line Message) (line-IsFifo Message) refl closing_reach refl

abbrev pub next : System → System
next t = task_move wired (line Message) t

abbrev pub stopped_at : System
stopped_at = next (next (next (next (next closing))))

-- the tick and the stop have been counted, logged and sent on
pub stopped_result :
    (result stopped_at.phase ≡ some (ok tt))
    × (stopped_at.run.state ≡ 2)
    × (stopped_at.run.world.logged ≡ tick ∷ stop ∷ [])
    × (stopped_at.run.world.sent ≡ 1 ∷ 2 ∷ [])
unfolding task_move launched opened flush record_event clone_notify notify notify_all step push
    default output_drain
stopped_result = (refl, refl, refl, refl)
