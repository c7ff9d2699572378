-- ===== src/Machine/Schedule/Whole.antt =====
-- The whole `task` of edfsm-machine/src/lib.rs between the senders of its channel: its state is rebuilt
-- and its effector initialised first, and then the main loop runs as moves.
mod Tests
use edfsm.Prelude.{◌<◌, ℕ, ◌+◌, ◌*◌, ◌≡◌, refl, sym, ap, subst, ◌∙◌, some, List, [], ◌++◌}
use edfsm.Fsm.{Input, Fsm, Init, Terminating, Drain, replay}
use edfsm.Fsm.Step.{IsQuiet}
use edfsm.Machine.Action.{Result, ok, Error, Exec, continue, ◌>>◌}
use edfsm.Machine.Action.Sequence.{>>_assoc}
use edfsm.Machine.Adapter.{history}
use edfsm.Machine.Task.{
  Channel, Template, Run, hydrate, initialise, flush, main_loop, run_task, task,
}
use edfsm.Machine.Task.Durable.{IsJournal, Spares, task-replay}
use edfsm.Machine.Queue.{View, Mpsc, IsFifo}
use edfsm.Machine.Schedule.{Wiring, loop, Sys, result, Reach, drive, opened, launched}
use edfsm.Machine.Schedule.Moves.{queue_length}
use edfsm.Machine.Schedule.Returns.{drive-Reach, task_returns}
use edfsm.Machine.Schedule.Follows.{task_follows_loop}
use edfsm.Machine.Schedule.Launched.{view-launched}

module _ {ℓ} {S C E SE O W Tx Rx : Type ℓ} (m : Fsm S C E SE) (d : Drain SE O)
    (term : Terminating E) (init : Init S SE) where
  -- What the task does before its main loop.
  unfoldable pub prepared : Template W E SE O Tx Rx → S → W → Result (Unit {0}) Error × Run S SE W
  prepared t default w =
      (hydrate m t.log >> initialise init >> flush d t.output)
        (record { state = default; effects = t.effects; world = w })

  -- The parts of a template that the main loop uses.
  abbrev pub wiring : Template W E SE O Tx Rx → Wiring S C E SE O W
  wiring t = record {
    machine = m;
    drain = d;
    terminating = term;
    log = t.log;
    output = t.output;
    events = t.events;
  }

  module _ (ch : Channel (Input C E) Tx Rx) (t : Template W E SE O Tx Rx) (default : S) where
    task-prepared :
        (w : W) (r : Run S SE W)
        → prepared t default w ≡ (ok tt, r)
        → task m d term init ch t default w ≡ loop (wiring t) (ch.received t.receiver) r
    unfolding task run_task prepared
    task-prepared w r h =
        let start : Run S SE W = record { state = default; effects = t.effects; world = w } in
        let begin = hydrate m t.log in
        let first : Exec (Run S SE W) = initialise init in
        let flushing : Exec (Run S SE W) = flush d t.output in
        let rest = loop (wiring t) (ch.received t.receiver) in
        sym (
          >>_assoc (begin >> first) flushing rest start
          ∙ >>_assoc begin first (flushing >> rest) start)
        ∙ ap (λ (p : Result (Unit {0}) Error × Run S SE W). continue p.0 (λ _. rest) p.1) h

    module _ {Ch : Type ℓ} (q : Mpsc (Input C E) Ch) (fifo : IsFifo q) where
      -- However the senders act between the moves of a task: once it has returned, it has returned,
      -- and left, what the sequential `task` does for the messages accepted.
      pub scheduled_task :
          {u : Sys Ch S E SE W} {sent : List (Input C E)} (buffer handles : ℕ) (room : 0 < buffer)
          (w : W) (r : Run S SE W) (res : Result (Unit {0}) Error)
          → prepared t default w ≡ (ok tt, r)
          → Reach (wiring t) q (launched q (opened q buffer handles) r) sent u
          → result u.phase ≡ some res
          → ch.received t.receiver ≡ sent
          → task m d term init ch t default w ≡ (res, u.run)
      unfolding launched
      scheduled_task {u} {sent} buffer handles room w r res h reach done delivered =
          let empty =
            ap (λ (v : View (Input C E)). v.queued)
              (view-launched (wiring t) q fifo buffer handles room r) in
          task-prepared w r h
          ∙ ap (λ l. loop (wiring t) l r) delivered
          ∙ sym (ap (λ l. loop (wiring t) (l ++ sent) r) empty)
          ∙ task_follows_loop (wiring t) q fifo res refl reach done

      -- However the senders act between the moves of a task, for a channel that is first-in first-out,
      -- with room for one message at least, and once the state is rebuilt and the first outputs are sent without an error: when the last
      -- sender is dropped, the task returns within three moves for each message that is still queued and
      -- three more; and it returns, and leaves, what the sequential `task` does whose receiver delivers
      -- the messages that have been accepted, in that order.
      pub scheduled_task_returns :
          {u : Sys Ch S E SE W} {sent : List (Input C E)} (buffer handles : ℕ) (room : 0 < buffer)
          (w : W) (r : Run S SE W)
          → prepared t default w ≡ (ok tt, r)
          → Reach (wiring t) q (launched q (opened q buffer handles) r) sent u
          → (q.view u.channel).senders ≡ 0
          → ch.received t.receiver ≡ sent
          → let after = drive (wiring t) q (3 * queue_length (wiring t) q u.channel + 3) u in
            let (res, run) = task m d term init ch t default w in
            (result after.phase ≡ some res) × (after.run ≡ run)
      unfolding launched
      scheduled_task_returns {u} buffer handles room w r h reach gone delivered =
          let n = 3 * queue_length (wiring t) q u.channel + 3 in
          let (res, done, _) = task_returns (wiring t) q fifo refl reach gone in
          let same =
            scheduled_task buffer handles room w r res h (drive-Reach (wiring t) q fifo n u reach)
              done delivered in
          (
            done ∙ ap (λ (p : Result (Unit {0}) Error × Run S SE W). some p.0) (sym same),
            ap (λ (p : Result (Unit {0}) Error × Run S SE W). p.1) (sym same),
          )

      -- Event sourcing, however the senders act between the moves of a task: when it has returned
      -- without an error, its state is the replay of the whole history that the log then holds. Asked
      -- are a channel that is first-in first-out, with room for one message at least, a start without an error, a machine whose ignored
      -- events change nothing, a log that appends what it accepts, other adapters that spare the log,
      -- and a receiver that stands for the messages accepted.
      pub scheduled-replay :
          {u : Sys Ch S E SE W} {sent : List (Input C E)} (buffer handles : ℕ) (room : 0 < buffer)
          (w : W) (r : Run S SE W)
          → IsQuiet m
          → IsJournal t.log
          → Spares t.log t.events
          → Spares t.log t.output
          → prepared t default w ≡ (ok tt, r)
          → Reach (wiring t) q (launched q (opened q buffer handles) r) sent u
          → result u.phase ≡ some (ok tt)
          → ch.received t.receiver ≡ sent
          → u.run.state ≡ replay m default (history t.log.source u.run.world)
      scheduled-replay buffer handles room w r quiet journal spares_events spares_output h reach
            done delivered =
          let same = scheduled_task buffer handles room w r (ok tt) h reach done delivered in
          subst
            (λ (p : Result (Unit {0}) Error × Run S SE W).
              p.0 ≡ ok tt → p.1.state ≡ replay m default (history t.log.source p.1.world))
            same
            (task-replay m d term init ch t default w quiet journal spares_events spares_output)
            refl
