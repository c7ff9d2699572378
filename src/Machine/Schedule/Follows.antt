-- ===== src/Machine/Schedule/Follows.antt =====
-- Whatever the schedule, the task does what the main loop of edfsm-machine/src/lib.rs does with the
-- messages in the order in which they were sent.
use edfsm.Prelude.{
  ℕ, zero, suc, ◌+◌, ◌<◌, ◌≡◌, refl, sym, ap, ◌∙◌, ◌⊎◌, inl, inr, some, List, [], ◌∷◌, ◌++◌,
  append-nil, append_assoc, arith,
}
use edfsm.Fsm.{Input}
use edfsm.Machine.Action.{Result, Error}
use edfsm.Machine.Task.{Run, flush, record_event}
use edfsm.Machine.Queue.{View, Mpsc, IsFifo}
use edfsm.Machine.Schedule.{
  Wiring, loop, Phase, receiving, handling, flushing, stopped, finished, Sys, result, polled,
  task_move, Reach, here, task, send, clone, drop,
}
use edfsm.Machine.Schedule.Sound.{
  record_rest, flush_rest, loop-cons, loop-nil, Sound, Sound-recorded, Sound-flushed, Sound-more,
  Sound-result,
}

pub zero_or_more : (n : ℕ) → (n ≡ 0) ⊎ (0 < n)
zero_or_more zero = inl refl
zero_or_more (suc n) = inr (omega arith)

pub senders_more : (n : ℕ) → 0 < n → (k : ℕ) × (n ≡ k + 1)
senders_more zero h = absurd (omega arith)
senders_more (suc n) h = (n, omega arith)

module _ {ℓ} {S C E SE O W Ch : Type ℓ} (w : Wiring S C E SE O W) (q : Mpsc (Input C E) Ch)
    (fifo : IsFifo q) where
  -- No message is lost or overtaken, and what the task has done is sound.
  record Follows (s : Sys Ch S E SE W) (sent : List (Input C E)) (t : Sys Ch S E SE W)
      : Type ℓ where
    taken : List (Input C E)
    kept : (q.view s.channel).queued ++ sent ≡ taken ++ (q.view t.channel).queued
    sound : Sound w q t.phase taken (q.view t.channel).queued s.run t.run

  module _ {s : Sys Ch S E SE W} {sent : List (Input C E)} where
    Follows-received :
        (c : Ch) (r : Run S SE W) (queue : List (Input C E))
        → (q.view c).queued ≡ queue
        → Follows s sent (record { channel = c; run = r; phase = receiving })
        → Follows s sent (task_move w q (record { channel = c; run = r; phase = receiving }))
    unfolding task_move
    Follows-received c r (i ∷ l) at f =
        let (polled, left) = fifo.recv_ready c i l at in
        rw polled (record {
          taken = f.taken ++ i ∷ [];
          kept =
              f.kept
              ∙ ap (λ l. f.taken ++ l) at
              ∙ sym (append_assoc f.taken (i ∷ []) l)
              ∙ ap (λ (v : View (Input C E)). (f.taken ++ i ∷ []) ++ v.queued) (sym left);
          sound = λ rest.
              ap (λ l. loop w l s.run) (append_assoc f.taken (i ∷ []) rest)
              ∙ f.sound (i ∷ rest)
              ∙ loop-cons w q i rest r;
        })
    Follows-received c r [] at f = elim (zero_or_more (q.view c).senders) [
      | inl gone ↦
          let (polled, left) = fifo.recv_closed c at gone in
          let queue = ap (λ (v : View (Input C E)). v.queued) left in
          rw polled (record {
            taken = f.taken;
            kept = f.kept ∙ ap (λ l. f.taken ++ l) (sym queue);
            sound = (
              queue ∙ at,
              ap (λ l. loop w l s.run) (sym (append-nil f.taken)) ∙ f.sound [] ∙ loop-nil w q r,
            );
          })
      | inr there ↦ let (polled, same) = fifo.recv_pending c at there in rw (polled, same) f
    ]

    Follows-phase :
        (p : Phase E) (c : Ch) (r : Run S SE W)
        → Follows s sent (record { channel = c; run = r; phase = p })
        → Follows s sent (task_move w q (record { channel = c; run = r; phase = p }))
    unfolding task_move
    Follows-phase receiving c r f = Follows-received c r (q.view c).queued refl f
    Follows-phase (handling e) c r f = record {
      taken = f.taken;
      kept = f.kept;
      sound =
          Sound-recorded w q f.taken (q.view c).queued s.run
            (record_event w.terminating w.log w.events e r)
            (λ rest.
              f.sound rest ∙ record_rest w q rest (record_event w.terminating w.log w.events e r));
    }
    Follows-phase (flushing t) c r f = record {
      taken = f.taken;
      kept = f.kept;
      sound =
          Sound-flushed w q t f.taken (q.view c).queued s.run (flush w.drain w.output r)
            (λ rest. f.sound rest ∙ flush_rest w q rest t (flush w.drain w.output r));
    }
    Follows-phase (stopped res) c r f = f
    Follows-phase finished c r f = f

    Follows-task : (t : Sys Ch S E SE W) → Follows s sent t → Follows s sent (task_move w q t)
    Follows-task t f = Follows-phase t.phase t.channel t.run f

    Follows-queue :
        (t : Sys Ch S E SE W) (c : Ch)
        → (q.view c).queued ≡ (q.view t.channel).queued
        → Follows s sent t
        → Follows s sent (record t { channel = c })
    Follows-queue t c same f = record {
      taken = f.taken;
      kept = f.kept ∙ ap (λ l. f.taken ++ l) (sym same);
      sound = rw same f.sound;
    }

  Follows-start : (s : Sys Ch S E SE W) → s.phase ≡ receiving → Follows s [] s
  Follows-start s h = record {
    taken = [];
    kept = append-nil (q.view s.channel).queued;
    sound = rw h (λ rest. refl);
  }

  Reach-Follows :
      {s t : Sys Ch S E SE W} {sent : List (Input C E)}
      → s.phase ≡ receiving
      → Reach w q s sent t
      → Follows s sent t
  Reach-Follows {s} h here = Follows-start s h
  Reach-Follows h (task {t = t} r) = Follows-task t (Reach-Follows h r)
  Reach-Follows {s} h (send {sent} {t} i c r live there accepted) =
      let f = Reach-Follows h r in
      let queue =
        ap (λ (v : View (Input C E)). v.queued) (fifo.send_accepted i t.channel c accepted).1 in
      record {
        taken = f.taken;
        kept =
            sym (append_assoc (q.view s.channel).queued sent (i ∷ []))
            ∙ ap (λ l. l ++ i ∷ []) f.kept
            ∙ append_assoc f.taken (q.view t.channel).queued (i ∷ [])
            ∙ ap (λ l. f.taken ++ l) (sym queue);
        sound =
            Sound-more w q t.phase f.taken (q.view t.channel).queued (q.view c).queued s.run t.run
              live f.sound;
      }
  Reach-Follows h (clone {t = t} r there) =
      Follows-queue t (q.clone_sender t.channel)
        (ap (λ (v : View (Input C E)). v.queued) (fifo.view-clone_sender t.channel))
        (Reach-Follows h r)
  Reach-Follows h (drop {t = t} r there) =
      let (k, e) = senders_more (q.view t.channel).senders there in
      Follows-queue t (q.drop_sender t.channel)
        (ap (λ (v : View (Input C E)). v.queued) (fifo.view-drop_sender t.channel k e))
        (Reach-Follows h r)

  -- For a channel that is first-in first-out, and a task that starts at `recv`: however the sends,
  -- clones and drops of the other tasks fall between its awaits, once it has returned, it has returned
  -- what the main loop returns, and left what the main loop leaves, for the messages that were queued
  -- at the start and those accepted since, in that order.
  pub task_follows_loop :
      {s t : Sys Ch S E SE W} {sent : List (Input C E)} (res : Result (Unit {0}) Error)
      → s.phase ≡ receiving
      → Reach w q s sent t
      → result t.phase ≡ some res
      → loop w ((q.view s.channel).queued ++ sent) s.run ≡ (res, t.run)
  task_follows_loop {s} {t} res h r done =
      let f = Reach-Follows h r in
      ap (λ l. loop w l s.run) f.kept
      ∙ Sound-result w q t.phase f.taken (q.view t.channel).queued s.run t.run res done f.sound
