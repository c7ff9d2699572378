-- ===== src/KvStore/Sent.antt =====
-- What the task of edfsm-machine/src/lib.rs sends when it runs a store of edfsm-kv-store/src/lib.rs.
mod Script
mod Tests
use edfsm.Prelude.{
  ℕ, ◌≡◌, refl, sym, ap, subst, ◌∙◌, false, none, List, All, [], ◌++◌, Ord, list_ord,
}
use edfsm.Fsm.{Input, Fsm, Terminating, Drain, replay}
use edfsm.Machine.Action.{ok}
use edfsm.Machine.Task.{Channel, task}
use edfsm.Machine.Task.Trace.{Ledger, assembled, trace, task-trace}
use edfsm.KvStore.KeyPath.{KeyPath, item_ord}
use edfsm.KvStore.Map.{get}
use edfsm.KvStore.Store.{
  Keyed, KvStore, Env, Query, default_store, kv_fsm, keyed_drain, keyed_terminating, keyed_init,
}
use edfsm.KvStore.Store.Slots.{slots, items_at, items_at-++, get-replay}
use edfsm.KvStore.Store.Interleaving.{replay-IsSorted}
use edfsm.KvStore.Store.Outputs.{IsDrainedTo, place_outputs}
use edfsm.KvStore.Store.Family.{handled, family}
use edfsm.KvStore.Store.Unwound.{IsServed, trace-panicked}

sent_behind {ℓ} :
    {N O : Type ℓ} ⦃o : Ord N⦄ (p : KeyPath N) (first items outs : List (Keyed N O)) (l : List O)
    → items ≡ []
    → items_at p outs ≡ l
    → items_at p (first ++ (items ++ outs)) ≡ items_at p first ++ l
sent_behind p first items outs l none_yet e =
    items_at-++ p first (items ++ outs)
    ∙ ap (λ k. items_at p first ++ k) (ap (λ k. items_at p (k ++ outs)) none_yet ∙ e)

module _ {ℓ} {N V C E SE O W Tx Rx : Type ℓ} ⦃o : Ord N⦄ (m : Fsm V C E SE) (d : Drain SE O)
    (term : Terminating E) (default : V) (clean : SE) (drained : IsDrainedTo d clean)
    (ch : Channel (Input (Query N W V E) (Keyed N E)) Tx Rx) where
  -- The effector that the task starts with has nothing to send.
  nothing_first :
      (env : Env N SE W) → env.effects.item ≡ clean → ((keyed_drain d).drain_all env).0 ≡ []
  unfolding keyed_drain
  nothing_first env h = rw (h, drained.nothing) refl

  first_clean : (env : Env N SE W) → ((keyed_drain d).drain_all env).1.effects.item ≡ clean
  unfolding keyed_drain
  first_clean env = drained.emptied env.effects.item

  -- The run of a store that is rebuilt from a log.
  family_from_log :
      (p : KeyPath N) (env : Env N SE W) (logged : List (Keyed N E))
      (inputs : List (Input (Query N W V E) (Keyed N E)))
      → env.effects.item ≡ clean
      → let store = replay (kv_fsm {SE = SE} {W = W} m term default) default_store logged in
        let run =
          trace (kv_fsm m term default) (keyed_drain d) keyed_terminating store env inputs in
        let before = slots m term default none (items_at p logged) in
        let events = items_at p (handled m d term default store env inputs) in
        (items_at p run.outputs ≡ place_outputs m d term default clean before events)
        × (get p run.state ≡ slots m term default before events)
  unfolding get
  family_from_log p env logged inputs h =
      let store = replay (kv_fsm {SE = SE} {W = W} m term default) default_store logged in
      let run = trace (kv_fsm m term default) (keyed_drain d) keyed_terminating store env inputs in
      let events = items_at p (handled m d term default store env inputs) in
      subst
        (λ v.
          (items_at p run.outputs ≡ place_outputs m d term default clean v events)
          × (get p run.state ≡ slots m term default v events))
        (get-replay m term default W p logged [] tt)
        (family m d term default clean drained p inputs store env
          (replay-IsSorted m term default W logged [] tt) h)

  first_panicked : (env : Env N SE W) → ((keyed_drain d).drain_all env).1.panicked ≡ env.panicked
  unfolding keyed_drain
  first_panicked env = refl

  -- A whole task of a store whose output, log and event observer are vectors, for an effector that is
  -- as new at the start and whenever it is drained, and inputs among which there is no range with
  -- bounds that are refused: no query panics, and the task returns without an error. For each path it
  -- sends what the inner machine there puts out for the events for that path alone, behind what had
  -- been sent, and the store has there what the inner machine makes of them, both from what the log
  -- says of that path.
  pub task-family :
      (p : KeyPath N) (env : Env N SE W) (buffer : ℕ) (w : Ledger (Keyed N E) (Keyed N O))
      → env.effects.item ≡ clean
      → env.panicked ≡ false
      → All (IsServed m d term default) (ch.received (ch.channel buffer).1)
      → let (res, run) =
          task
            (kv_fsm m term default)
            (keyed_drain d)
            keyed_terminating
            keyed_init
            ch
            (assembled ch env buffer)
            default_store
            w in
        let before = slots m term default none (items_at p w.logged) in
        let store = replay (kv_fsm {SE = SE} {W = W} m term default) default_store w.logged in
        let events = items_at p (
          handled m d term default store
            ((keyed_drain d).drain_all env).1
            (ch.received (ch.channel buffer).1)) in
        (res ≡ ok tt)
        × (run.effects.panicked ≡ false)
        × (items_at p run.world.sent
            ≡ items_at p w.sent ++ place_outputs m d term default clean before events)
        × (get p run.state ≡ slots m term default before events)
  unfolding keyed_init
  task-family p env buffer w h calm served =
      let kv = kv_fsm {SE = SE} {W = W} m term default in
      let inputs = ch.received (ch.channel buffer).1 in
      let (items, ready) = (keyed_drain d).drain_all env in
      let (sent, value) = family_from_log p ready w.logged inputs (first_clean env) in
      rw (task-trace kv (keyed_drain d) keyed_terminating keyed_init ch env buffer default_store w)
        (
          refl,
          trace-panicked m d term default inputs _ ready served ∙ first_panicked env ∙ calm,
          sent_behind p w.sent items _ _ (nothing_first env h) sent,
          value,
        )
