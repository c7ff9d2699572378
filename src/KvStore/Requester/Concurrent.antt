-- ===== src/KvStore/Requester/Concurrent.antt =====
-- The requests of many clients at once: what the task of edfsm-machine/src/lib.rs that runs the store of
-- edfsm-kv-store/src/lib.rs answers to the queries of edfsm-kv-store/src/async_query.rs, between whose
-- awaits the clients act.
mod Tests
use edfsm.Prelude.{
  ◌<◌, ℕ, ◌+◌, ◌*◌, ◌≡◌, refl, sym, ap, ap₂, subst, ◌∙◌, Bool, false, Option, none, some, List, [],
  ◌∷◌, ◌++◌, map, Ord, list_ord,
}
use edfsm.Fsm.{Input, command, Fsm, Terminating, Drain, step}
use edfsm.Machine.Action.{Result, ok, Error, ◌>>◌}
use edfsm.Machine.Adapter.{vec, notify}
use edfsm.Machine.Task.{Run, main_loop}
use edfsm.Machine.Task.Trace.{
  Ledger, vec_log, sent_place, notified_place, ends, trace, result_of, main_loop-trace,
}
use edfsm.Machine.Queue.{View, Mpsc, IsFifo}
use edfsm.Machine.Schedule.{Wiring, loop, Sys, result, Reach, drive, opened, launched}
use edfsm.Machine.Schedule.Moves.{queue_length}
use edfsm.Machine.Schedule.Returns.{drive-Reach, task_returns}
use edfsm.Machine.Schedule.Follows.{task_follows_loop}
use edfsm.Machine.Schedule.Launched.{view-launched}
use edfsm.KvStore.KeyPath.{KeyPath, item_ord}
use edfsm.KvStore.Map
use edfsm.KvStore.Map.Order.{IsSorted}
use edfsm.KvStore.Store.{
  Keyed, KvStore, Env, Query, RespondOne, for_command, kv_fsm, keyed_drain, keyed_terminating,
}
use edfsm.KvStore.Store.Commands.{step_read, step-upsert, step-upsert-IsSorted}
use edfsm.KvStore.Requester.{
  Oneshot, Requester, Extant, extant as extant_of, is_some, awaited, respond_one, dispatch, get,
  upsert,
}
use edfsm.KvStore.Requester.Answered.{presence, extant-presence, step-world}
use edfsm.KvStore.Requester.Served.Atomic.{
  Request, read, write, Reply, value, extant, Slots, answer, update,
}
use edfsm.KvStore.Requester.Queries.{query, slots_in, all_updated, all_replied, trace-replied}

module _ {ℓ κ μ} {N V C E SE W O : Type ℓ} {R : Type κ} {Tx Rx X : Type μ} ⦃o : Ord N⦄
    (m : Fsm V C E SE) (term : Terminating E) (default : V) (values : Oneshot W R Tx Rx X)
    (extants : Oneshot W Extant Tx Rx X) (d : Drain SE O) where
  -- The task's parts: a log, an observer and an output that are vectors.
  abbrev pub store_wiring :
      Wiring
        (KvStore N V)
        (Query N W V E)
        (Keyed N E)
        (Env N SE W)
        (Keyed N O)
        (Ledger (Keyed N E) (Keyed N O))
  store_wiring = record {
    machine = kv_fsm m term default;
    drain = keyed_drain d;
    terminating = keyed_terminating;
    log = vec_log;
    output = vec sent_place;
    events = vec notified_place;
  }

  -- Whatever the senders of the task's channel do between its moves: a task that has returned has
  -- returned without an error, and has replied to each request.
  pub concurrent-replied :
      {Ch : Type ℓ} (q : Mpsc (Input (Query N W V E) (Keyed N E)) Ch) (fifo : IsFifo q)
      {u : Sys Ch (KvStore N V) (Keyed N E) (Env N SE W) (Ledger (Keyed N E) (Keyed N O))}
      (buffer handles : ℕ) (room : 0 < buffer) (rs : List (Tx × Request N V E R))
      (r : Run (KvStore N V) (Env N SE W) (Ledger (Keyed N E) (Keyed N O)))
      (res : Result (Unit {0}) Error)
      → IsSorted r.state
      → Reach store_wiring q
          (launched q (opened q buffer handles) r)
          (map (query values extants) rs)
          u
      → result u.phase ≡ some res
      → (res ≡ ok tt)
        × (u.run.effects.world
            ≡ all_replied m term default values extants rs (slots_in r.state) r.effects.world)
        × (slots_in u.run.state ≡ all_updated m term default rs (slots_in r.state))
  unfolding launched
  concurrent-replied q fifo {u} buffer handles room rs r res s reach done =
      let inputs = map (query values extants) rs in
      let kv = kv_fsm {SE = SE} {W = W} m term default in
      let empty =
        ap (λ (v : View (Input (Query N W V E) (Keyed N E))). v.queued)
          (view-launched store_wiring q fifo buffer handles room r) in
      let same =
        sym (main_loop-trace kv (keyed_drain d) keyed_terminating inputs r)
        ∙ sym (ap (λ l. loop store_wiring (l ++ inputs) r) empty)
        ∙ task_follows_loop store_wiring q fifo res refl reach done in
      let (replies, left) = trace-replied m term default values extants d rs r.state r.effects s in
      subst
        (λ (p : Result (Unit {0}) Error
            × Run (KvStore N V) (Env N SE W) (Ledger (Keyed N E) (Keyed N O))).
          (p.0 ≡ ok tt)
          × (p.1.effects.world
              ≡ all_replied m term default values extants rs (slots_in r.state) r.effects.world)
          × (slots_in p.1.state ≡ all_updated m term default rs (slots_in r.state)))
        same (refl, replies, left)

  -- Whatever the senders of the task's channel do between its moves, for a channel that is first-in
  -- first-out, with room for one message at least, a store in order, a log, an observer and an output
  -- that are vectors, and senders that send the queries of gets and upserts with the senders of oneshot channels: once the last sender
  -- is dropped, the task returns without an error, within three moves for each request that is still
  -- queued and three more. Each request has then been replied to, over its own oneshot channel, as
  -- by a map whose operations take no time and that meets the requests in the order in which the
  -- channel accepted them; and the store is what that map is in the end.
  pub concurrent-served :
      {Ch : Type ℓ} (q : Mpsc (Input (Query N W V E) (Keyed N E)) Ch) (fifo : IsFifo q)
      {t : Sys Ch (KvStore N V) (Keyed N E) (Env N SE W) (Ledger (Keyed N E) (Keyed N O))}
      (buffer handles : ℕ) (room : 0 < buffer) (rs : List (Tx × Request N V E R))
      (r : Run (KvStore N V) (Env N SE W) (Ledger (Keyed N E) (Keyed N O)))
      → IsSorted r.state
      → Reach store_wiring q
          (launched q (opened q buffer handles) r)
          (map (query values extants) rs)
          t
      → (q.view t.channel).senders ≡ 0
      → let u = drive store_wiring q (3 * queue_length store_wiring q t.channel + 3) t in
        (result u.phase ≡ some (ok tt))
        × (u.run.effects.world
            ≡ all_replied m term default values extants rs (slots_in r.state) r.effects.world)
        × (slots_in u.run.state ≡ all_updated m term default rs (slots_in r.state))
  unfolding launched
  concurrent-served q fifo {t} buffer handles room rs r s reach gone =
      let n = 3 * queue_length store_wiring q t.channel + 3 in
      let (res, done, _) = task_returns store_wiring q fifo refl reach gone in
      let (res_ok, replies, left) =
        concurrent-replied q fifo buffer handles room rs r res s
          (drive-Reach store_wiring q fifo n t reach) done in
      (done ∙ ap some res_ok, replies, left)
