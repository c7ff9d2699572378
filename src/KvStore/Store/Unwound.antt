-- ===== src/KvStore/Store/Unwound.antt =====
-- The panics of queries of edfsm-kv-store/src/lib.rs in a run of the store.
use edfsm.Prelude.{
  ◌≡◌, refl, ◌∙◌, false, Option, none, some, List, [], ◌∷◌, All, Ord, list_ord, arith,
}
use edfsm.Fsm.{
  Input, command, event, Fsm, Terminating, Drain, Change, emitted, applied, changed, step,
}
use edfsm.Machine.Task.Trace.{trace}
use edfsm.KvStore.KeyPath.{item_ord}
use edfsm.KvStore.Map.{range, range_panics}
use edfsm.KvStore.Map
use edfsm.KvStore.Store.{
  Keyed, KvStore, Env, Query, tree, for_command, change_entry, on_change, kv_fsm, keyed_drain,
  keyed_terminating,
}
use edfsm.KvStore.Store.Family.{no_end}
use edfsm.KvStore.Store.Commands.{has_bad_bounds}

module _ {ℓ} {N V C E SE O W : Type ℓ} ⦃o : Ord N⦄ (m : Fsm V C E SE) (d : Drain SE O)
    (term : Terminating E) (default : V) where
  -- not a `GetRange` whose bounds `BTreeMap::range` refuses
  abbrev pub IsServed : Input (Query N W V E) (Keyed N E) → Type 0
  IsServed (command q) = has_bad_bounds q ≡ false
  IsServed (event e) = Unit

  abbrev kv : Fsm (KvStore N V) (Query N W V E) (Keyed N E) (Env N SE W)
  kv = kv_fsm m term default

  emitted-panicked :
      (store : KvStore N V) (i : Input (Query N W V E) (Keyed N E)) (env : Env N SE W)
      → IsServed i
      → (emitted kv store i env).1.panicked ≡ env.panicked
  unfolding kv_fsm for_command tree range range_panics
  emitted-panicked store (event e) env h = refl
  emitted-panicked store (command (Query.get path respond)) env h = refl
  emitted-panicked store (command (Query.get_tree path respond)) env h = refl
  emitted-panicked store (command (Query.get_range lo hi respond)) env h = ground (arith, h)
  emitted-panicked store (command (Query.get_all respond)) env h = refl
  emitted-panicked store (command (Query.upsert path respond)) env h = refl
  emitted-panicked store (command (Query.insert respond)) env h = refl

  change_entry-panicked :
      (v : Option V) (e : Keyed N E) (env : Env N SE W) (c : Change)
      → (change_entry m v e env c).panicked ≡ env.panicked
  change_entry-panicked none e env c = refl
  change_entry-panicked (some v) e env c = refl

  changed-panicked :
      (e : Keyed N E) (r : KvStore N V × Option Change) (env : Env N SE W)
      → (changed kv e r env).2.panicked ≡ env.panicked
  unfolding kv_fsm on_change
  changed-panicked e (store, none) env = refl
  changed-panicked e (store, some c) env = change_entry-panicked (Map.get e.key store) e env c

  applied-panicked :
      (store : KvStore N V) (e : Option (Keyed N E)) (env : Env N SE W)
      → (applied kv store e env).2.panicked ≡ env.panicked
  applied-panicked store none env = refl
  applied-panicked store (some e) env = changed-panicked e (kv.on_event store e) env

  step-panicked :
      (store : KvStore N V) (i : Input (Query N W V E) (Keyed N E)) (env : Env N SE W)
      → IsServed i
      → (step kv store i env).2.panicked ≡ env.panicked
  unfolding step
  step-panicked store i env h =
      let r = emitted kv store i env in
      applied-panicked store r.0 r.1 ∙ emitted-panicked store i env h

  -- A run without such a query does not panic.
  pub trace-panicked :
      (inputs : List (Input (Query N W V E) (Keyed N E))) (store : KvStore N V) (env : Env N SE W)
      → All IsServed inputs
      → (trace kv (keyed_drain d) keyed_terminating store env inputs).effects.panicked
        ≡ env.panicked
  unfolding trace keyed_drain
  trace-panicked [] store env h = refl
  trace-panicked (i ∷ inputs) store env (served, h) =
      let (e, after, left) = step kv store i env in
      let next = ((keyed_drain d).drain_all left).1 in
      rw (no_end kv (keyed_drain d) e)
        (trace-panicked inputs after next h ∙ step-panicked store i env served)
