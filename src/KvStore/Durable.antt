-- ===== src/KvStore/Durable.antt =====
-- The store of edfsm-kv-store/src/lib.rs run by the task of edfsm-machine/src/lib.rs.
mod Tests
use edfsm.Prelude.{◌≡◌, ◌∙◌, ap, none, List, [], Ord, list_ord}
use edfsm.Fsm.{Input, Fsm, Terminating, Drain, replay}
use edfsm.Fsm.Step.{IsQuiet}
use edfsm.Machine.Action.{Result, Error, ok}
use edfsm.Machine.Adapter.{Adapter, history}
use edfsm.Machine.Task.{Channel, Template, Run, task}
use edfsm.Machine.Task.Durable.{IsJournal, Spares, task-replay}
use edfsm.KvStore.KeyPath.{KeyPath, item_ord}
use edfsm.KvStore.Map
use edfsm.KvStore.Store.{
  Keyed, KvStore, Env, Query, default_store, kv_fsm, keyed_drain, keyed_terminating, keyed_init,
}
use edfsm.KvStore.Store.Slots.{slots, items_at, get-replay}
use edfsm.KvStore.Store.Quiet.{IsEager, kv_fsm-IsQuiet}

module _ {ℓ} {N V C E SE O W X Tx Rx : Type ℓ} ⦃o : Ord N⦄ (m : Fsm V C E SE) (term : Terminating E)
    (default : V) (d : Drain SE O) (ch : Channel (Input (Query N W V E) (Keyed N E)) Tx Rx)
    (t : Template X (Keyed N E) (Env N SE W) (Keyed N O) Tx Rx) where
  -- The store as a task.
  abbrev pub store_task : X → Result (Unit {0}) Error × Run (KvStore N V) (Env N SE W) X
  store_task w =
      task (kv_fsm m term default) (keyed_drain d) keyed_terminating keyed_init ch t default_store w

  -- When the task of a store returns without an error, what the store holds at a path is what the
  -- inner machine makes of the events for that path in the log, in their order, from nothing.
  -- Asked of the parts: the inner machine is quiet, and a new one takes every event but a
  -- terminating one for a change; the log appends each event that it accepts, and the other
  -- adapters spare the log.
  pub store_task-slots :
      (w : X) (p : KeyPath N)
      → IsQuiet m
      → IsEager m term default
      → IsJournal t.log
      → Spares t.log t.events
      → Spares t.log t.output
      → (store_task w).0 ≡ ok tt
      → Map.get p (store_task w).1.state
        ≡ slots m term default none (items_at p (history t.log.source (store_task w).1.world))
  unfolding Map.get
  store_task-slots w p q g j spares_events spares_output done =
      ap (Map.get p) (
        task-replay (kv_fsm m term default) (keyed_drain d) keyed_terminating keyed_init ch t
          default_store w (kv_fsm-IsQuiet m term default W q g) j spares_events spares_output done)
      ∙ get-replay m term default W p (history t.log.source (store_task w).1.world) [] tt
