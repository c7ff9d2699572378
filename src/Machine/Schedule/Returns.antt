-- ===== src/Machine/Schedule/Returns.antt =====
-- The task of edfsm-machine/src/lib.rs returns once the senders are gone.
use edfsm.Prelude.{
  ◌<◌, ℕ, zero, suc, ◌+◌, ◌*◌, ◌≤◌, ◌≡◌, ◌≢◌, refl, sym, ap, ◌∙◌, inl, inr, none, some,
  Option-cases, List, [], ◌++◌, arith, length,
}
use edfsm.Fsm.{Input}
use edfsm.Machine.Action.{Result, ok, Error}
use edfsm.Machine.Task.{Run, main_loop}
use edfsm.Machine.Queue.{View, Mpsc, IsFifo}
use edfsm.Machine.Schedule.{
  Wiring, loop, receiving, Sys, result, Reach, here, task, drop, drive, opened, launched,
}
use edfsm.Machine.Schedule.Follows.{task_follows_loop}
use edfsm.Machine.Schedule.Moves.{
  drops, queue_length, move, left, weight-le, result-weight, task_move-Moves, left-move,
}
use edfsm.Machine.Schedule.Launched.{view-launched}

module _ {ℓ} {S C E SE O W Ch : Type ℓ} (w : Wiring S C E SE O W) (q : Mpsc (Input C E) Ch)
    (fifo : IsFifo q) where
  drive_ends :
      (n : ℕ) (t : Sys Ch S E SE W)
      → (q.view t.channel).senders ≡ 0
      → left w q t ≤ n
      → result (drive w q n t).phase ≢ none
  unfolding drive
  drive_ends zero t gone h = result-weight t.phase (queue_length w q t.channel) h
  drive_ends (suc n) t gone h =
      drive_ends n (move w q t) ((task_move-Moves w q fifo t).senders ∙ gone)
        (left-move w q fifo t n gone h)

  pub drive-Reach :
      {s : Sys Ch S E SE W} {sent : List (Input C E)} (n : ℕ) (t : Sys Ch S E SE W)
      → Reach w q s sent t
      → Reach w q s sent (drive w q n t)
  unfolding drive
  drive-Reach zero t r = r
  drive-Reach (suc n) t r = drive-Reach n (move w q t) (task r)

  -- For a channel that is first-in first-out, and a task that starts at `recv`: in whatever state it is
  -- when the last sender is dropped, the main loop returns, within three moves for each message that is
  -- still queued and three more; and what it returns and leaves is what the sequential loop gives for
  -- all the messages that were queued at the start and accepted since.
  pub task_returns :
      {s t : Sys Ch S E SE W} {sent : List (Input C E)}
      → s.phase ≡ receiving
      → Reach w q s sent t
      → (q.view t.channel).senders ≡ 0
      → let u = drive w q (3 * queue_length w q t.channel + 3) t in
        (res : Result (Unit {0}) Error) × (result u.phase ≡ some res)
        × (loop w ((q.view s.channel).queued ++ sent) s.run ≡ (res, u.run))
  task_returns {t = t} start r gone =
      let n = 3 * queue_length w q t.channel + 3 in
      let u = drive w q n t in
      elim (Option-cases (result u.phase)) [
        | inl live ↦
            absurd (drive_ends n t gone (weight-le t.phase (queue_length w q t.channel)) live)
        | inr (res, done) ↦
            (res, done, task_follows_loop w q fifo res start (drive-Reach n t r) done)
      ]

  drops-Reach :
      {s : Sys Ch S E SE W} {sent : List (Input C E)} (n k : ℕ) (t : Sys Ch S E SE W)
      → Reach w q s sent t
      → (q.view t.channel).senders ≡ n + k
      → Reach w q s sent (drops w q n t)
        × (q.view (drops w q n t).channel ≡ record (q.view t.channel) { senders = k })
  drops-Reach zero k t r there =
      (r, ap (λ n. record (q.view t.channel) { senders = n }) (there ∙ omega arith))
  drops-Reach (suc n) k t r there =
      let left = fifo.view-drop_sender t.channel (n + k) (omega arith) in
      let (reach, view) =
        drops-Reach n k (record t { channel = q.drop_sender t.channel }) (drop r (omega arith))
          (ap (λ (v : View (Input C E)). v.senders) left) in
      (reach, view ∙ ap (λ (v : View (Input C E)). record v { senders = k }) left)

  -- The task does not hold its own channel open, for a channel that is first-in first-out: when each
  -- sender that `input` has given is dropped unused, the main loop returns within three moves, without
  -- an error, and what it runs on is as it was.
  launched_returns :
      (buffer handles : ℕ) (room : 0 < buffer) (r : Run S SE W)
      → let u = drive w q 3 (drops w q handles (launched q (opened q buffer handles) r)) in
        (result u.phase ≡ some (ok tt)) × (u.run ≡ r)
  unfolding launched main_loop
  launched_returns buffer handles room r =
      let s : Sys Ch S E SE W = launched q (opened q buffer handles) r in
      let view = view-launched w q fifo buffer handles room r in
      let (reach, view') =
        drops-Reach handles 0 s here
          (ap (λ (v : View (Input C E)). v.senders) view ∙ omega arith) in
      let queue = ap (λ (v : View (Input C E)). v.queued) view in
      let empty = ap (λ (v : View (Input C E)). v.queued) view' ∙ queue in
      let t = drops w q handles s in
      let u = drive w q 3 t in
      let bound = weight-le t.phase (queue_length w q t.channel) in
      elim (Option-cases (result u.phase)) [
        | inl live ↦ absurd (
            drive_ends 3 t (ap (λ (v : View (Input C E)). v.senders) view')
              (omega (arith, ap length empty, bound)) live)
        | inr (res, done) ↦
            let all =
              ap (λ l. loop w (l ++ []) r) (sym queue)
              ∙ task_follows_loop w q fifo res refl (drive-Reach 3 t reach) done in
            let res_ok = ap (λ (x : Result (Unit {0}) Error × Run S SE W). x.0) all in
            let run_kept = ap (λ (x : Result (Unit {0}) Error × Run S SE W). x.1) all in
            (done ∙ ap some (sym res_ok), sym run_kept)
      ]
