-- ===== src/Machine/Schedule/Moves.antt =====
-- The moves of the task of edfsm-machine/src/lib.rs: how many are left, and when it waits.
use edfsm.Prelude.{
  ℕ, zero, suc, ◌+◌, ◌*◌, ◌<◌, ◌≤◌, ◌≡◌, ◌≢◌, refl, ap, ◌⊎◌, inl, inr, Bool, true, false, none,
  Option-cases, List, [], ◌∷◌, arith, length,
}
use edfsm.Fsm.{Input}
use edfsm.Machine.Action.{Result, ok, err, Error}
use edfsm.Machine.Task.{Run, flush, record_event}
use edfsm.Machine.Queue.{View, Mpsc, IsFifo}
use edfsm.Machine.Schedule.{
  Wiring, Phase, receiving, handling, flushing, stopped, finished, Sys, result, recorded, flushed,
  polled, task_move,
}
use edfsm.Machine.Schedule.Follows.{zero_or_more}

-- The moves that the task makes at most, if nothing more is sent.
abbrev pub weight {ℓ} : {E : Type ℓ} → Phase E → ℕ → ℕ
weight receiving n = 3 * n + 1
weight (handling e) n = 3 * n + 3
weight (flushing t) n = 3 * n + 2
weight (stopped res) n = 0
weight finished n = 0

weight-recorded {ℓ} :
    (E : Type ℓ) (res : Result Bool Error) (n : ℕ) → weight (recorded {E = E} res) n < 3 * n + 3
weight-recorded E (ok t) n = omega arith
weight-recorded E (err x) n = omega arith

weight-flushed {ℓ} :
    (E : Type ℓ) (t : Bool) (res : Result (Unit {0}) Error) (n : ℕ)
    → weight (flushed {E = E} t res) n < 3 * n + 2
weight-flushed E true (ok done) n = omega arith
weight-flushed E false (ok done) n = omega arith
weight-flushed E t (err x) n = omega arith

pub result-weight {ℓ} : {E : Type ℓ} (p : Phase E) (n : ℕ) → weight p n ≤ 0 → result p ≢ none
result-weight receiving n h = λ k. omega arith
result-weight (handling e) n h = λ k. omega arith
result-weight (flushing t) n h = λ k. omega arith
result-weight (stopped res) n h = λ k. cc
result-weight finished n h = λ k. cc

weight-ended {ℓ} : {E : Type ℓ} (p : Phase E) (n : ℕ) → result p ≢ none → weight p n ≡ 0
weight-ended receiving n h = absurd (h refl)
weight-ended (handling e) n h = absurd (h refl)
weight-ended (flushing t) n h = absurd (h refl)
weight-ended (stopped res) n h = refl
weight-ended finished n h = refl

pub weight-le {ℓ} : {E : Type ℓ} (p : Phase E) (n : ℕ) → weight p n ≤ 3 * n + 3
weight-le receiving n = omega arith
weight-le (handling e) n = omega arith
weight-le (flushing t) n = omega arith
weight-le (stopped res) n = omega arith
weight-le finished n = omega arith

module _ {ℓ} {S C E SE O W Ch : Type ℓ} (w : Wiring S C E SE O W) (q : Mpsc (Input C E) Ch) where
  abbrev pub queue_length : Ch → ℕ
  queue_length c = length (q.view c).queued

  -- The moves that are left to the task of a system.
  abbrev pub left : Sys Ch S E SE W → ℕ
  left t = weight t.phase (queue_length t.channel)

  abbrev pub move : Sys Ch S E SE W → Sys Ch S E SE W
  move t = task_move w q t

  -- A number of senders are dropped, one after the other.
  abbrev pub drops : ℕ → Sys Ch S E SE W → Sys Ch S E SE W
  drops zero s = s
  drops (suc n) s = drops n (record s { channel = q.drop_sender s.channel })

  -- What a move of the task does to the channel, and to the moves that are left.
  pub record Moves (t u : Sys Ch S E SE W) : Type ℓ where
    pub senders : (q.view u.channel).senders ≡ (q.view t.channel).senders
    pub capacity : (q.view u.channel).capacity ≡ (q.view t.channel).capacity
    pub shorter : queue_length u.channel ≤ queue_length t.channel

  -- The task waits: there is nothing to receive, and someone who may send.
  abbrev pub Waits : Sys Ch S E SE W → Type ℓ
  Waits t = ((q.view t.channel).queued ≡ []) × (0 < (q.view t.channel).senders)

module _ {ℓ} {S C E SE O W Ch : Type ℓ} (w : Wiring S C E SE O W) (q : Mpsc (Input C E) Ch)
    (fifo : IsFifo q) where
  received :
      (c : Ch) (r : Run S SE W) (queue : List (Input C E))
      → (q.view c).queued ≡ queue
      → let t : Sys Ch S E SE W = record { channel = c; run = r; phase = receiving } in
        Moves w q t (move w q t) × ((left w q (move w q t) < left w q t) ⊎ Waits w q t)
  unfolding task_move
  received c r (i ∷ l) at =
      let (polled, view) = fifo.recv_ready c i l at in
      rw (polled, at)
        (
          record {
            senders = ap (λ (v : View (Input C E)). v.senders) view;
            capacity = ap (λ (v : View (Input C E)). v.capacity) view;
            shorter = rw (view, at) (omega arith);
          },
          inl (rw view (omega arith)),
        )
  received c r [] at = elim (zero_or_more (q.view c).senders) [
    | inl gone ↦
        let (polled, view) = fifo.recv_closed c at gone in
        rw polled (
          record {
            senders = ap (λ (v : View (Input C E)). v.senders) view;
            capacity = ap (λ (v : View (Input C E)). v.capacity) view;
            shorter = rw view (omega arith);
          },
          inl (omega arith),
        )
    | inr there ↦
        let (polled, same) = fifo.recv_pending c at there in
        rw (polled, same)
          (record { senders = refl; capacity = refl; shorter = omega arith }, inr (at, there))
  ]

  -- A move before the end leaves less to do, or the task waits.
  moved :
      (p : Phase E) (c : Ch) (r : Run S SE W)
      → let t : Sys Ch S E SE W = record { channel = c; run = r; phase = p } in
        Moves w q t (move w q t)
        × (result p ≡ none → (left w q (move w q t) < left w q t) ⊎ Waits w q t)
  unfolding task_move
  moved receiving c r = let (a, b) = received c r (q.view c).queued refl in (a, λ live. b)
  moved (handling e) c r = (
    record { senders = refl; capacity = refl; shorter = omega arith },
    λ live.
        inl (
          weight-recorded E (record_event w.terminating w.log w.events e r).0 (queue_length w q c)),
  )
  moved (flushing t) c r = (
    record { senders = refl; capacity = refl; shorter = omega arith },
    λ live. inl (weight-flushed E t (flush w.drain w.output r).0 (queue_length w q c)),
  )
  moved (stopped res) c r =
      (record { senders = refl; capacity = refl; shorter = omega arith }, λ live. cc)
  moved finished c r =
      (record { senders = refl; capacity = refl; shorter = omega arith }, λ live. cc)

  pub task_move-Moves : (t : Sys Ch S E SE W) → Moves w q t (move w q t)
  task_move-Moves t = (moved t.phase t.channel t.run).0

  move_at_end :
      (p : Phase E) (c : Ch) (r : Run S SE W)
      → result p ≢ none
      → let t : Sys Ch S E SE W = record { channel = c; run = r; phase = p } in move w q t ≡ t
  unfolding task_move
  move_at_end receiving c r h = absurd (h refl)
  move_at_end (handling e) c r h = absurd (h refl)
  move_at_end (flushing t) c r h = absurd (h refl)
  move_at_end (stopped res) c r h = refl
  move_at_end finished c r h = refl

  pub left-move :
      (t : Sys Ch S E SE W) (n : ℕ)
      → (q.view t.channel).senders ≡ 0
      → left w q t ≤ suc n
      → left w q (move w q t) ≤ n
  left-move t n gone h = elim (Option-cases (result t.phase)) [
    | inl live ↦ elim ((moved t.phase t.channel t.run).1 live) [
      | inl less ↦ omega arith
      | inr waits ↦ omega (arith, waits.1)
    ]
    | inr (res, ended) ↦
        let over : result t.phase ≢ none = λ k. cc in
        rw (move_at_end t.phase t.channel t.run over)
          (rw (weight-ended t.phase (queue_length w q t.channel) over) (omega arith))
  ]
