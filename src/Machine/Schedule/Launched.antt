-- ===== src/Machine/Schedule/Launched.antt =====
-- The channel that the task of edfsm-machine/src/lib.rs is started with.
use edfsm.Prelude.{◌<◌, ℕ, zero, suc, ◌+◌, ◌≡◌, ap, ◌∙◌, [], arith}
use edfsm.Fsm.{Input}
use edfsm.Machine.Task.{Run}
use edfsm.Machine.Queue.{View, Mpsc, IsFifo}
use edfsm.Machine.Schedule.{Wiring, Sys, opened, launched}

module _ {ℓ} {S C E SE O W Ch : Type ℓ} (w : Wiring S C E SE O W) (q : Mpsc (Input C E) Ch)
    (fifo : IsFifo q) where
  view-opened :
      (buffer handles : ℕ) (room : 0 < buffer)
      → q.view (opened q buffer handles)
        ≡ record { queued = []; senders = handles + 1; capacity = buffer }
  unfolding opened
  view-opened buffer zero room = fifo.view-channel buffer room
  view-opened buffer (suc handles) room =
      fifo.view-clone_sender (opened q buffer handles)
      ∙ ap (λ (v : View (Input C E)). record v { senders = v.senders + 1 })
          (view-opened buffer handles room)
      ∙ ap (λ n. record { queued = []; senders = n; capacity = buffer }) (omega arith)

  pub view-launched :
      (buffer handles : ℕ) (room : 0 < buffer) (r : Run S SE W)
      → let s : Sys Ch S E SE W = launched q (opened q buffer handles) r in
        q.view s.channel ≡ record { queued = []; senders = handles; capacity = buffer }
  unfolding launched
  view-launched buffer handles room r =
      fifo.view-drop_sender (opened q buffer handles) handles
        (ap (λ (v : View (Input C E)). v.senders) (view-opened buffer handles room))
      ∙ ap (λ (v : View (Input C E)). record v { senders = handles })
          (view-opened buffer handles room)
