-- ===== src/KvStore/Store/Inner.antt =====
-- One event for one path, in edfsm-kv-store/src/lib.rs, against the inner machine alone.
use edfsm.Prelude.{◌≡◌, refl, false, Option, none, some, Ord, list_ord, Option-cases, inl, inr}
use edfsm.Fsm.{event, Fsm, Terminating, Change, step, changed}
use edfsm.KvStore.KeyPath.{KeyPath, item_ord}
use edfsm.KvStore.Map.{get, insert}
use edfsm.KvStore.Map.Lookup.{get-insert_self}
use edfsm.KvStore.Store.{Keyed, KvStore, Env, on_event, on_change, kv_fsm}

module _ {ℓ} {N E : Type ℓ} where
  abbrev pub keyed_event : KeyPath N → Option E → Option (Keyed N E)
  keyed_event key none = none
  keyed_event key (some e) = some (record { key = key; item = e })

abbrev pub value_or {ℓ} : {V : Type ℓ} → V → Option V → V
value_or default none = default
value_or default (some v) = v

module _ {ℓ} {N E SE W : Type ℓ} where
  -- the key of the effector is that of the last event that made a change
  abbrev pub retagged : Env N SE W → KeyPath N → Option E → SE → Env N SE W
  retagged env key none se = env
  retagged env key (some e) se = record env { effects = record { key = key; item = se } }

module _ {ℓ} {N V C E SE W : Type ℓ} ⦃o : Ord N⦄ (m : Fsm V C E SE) (term : Terminating E)
    (default : V) where
  changed_inner :
      (store : KvStore N V) (key : KeyPath N) (e : E) (env : Env N SE W) (s : V) (c : Option Change)
      → let inner = changed m e (s, c) env.effects.item in
        let (reported, store', env') =
          changed
            (kv_fsm m term default)
            (record { key = key; item = e })
            (insert key s store, c)
            env in
        (reported ≡ keyed_event key inner.0)
        × (store' ≡ insert key inner.1 store)
        × (env' ≡ retagged env key inner.0 inner.2)
  unfolding kv_fsm on_change
  changed_inner store key e env s none = (refl, refl, refl)
  changed_inner store key e env s (some c) = (refl, refl, rw (get-insert_self key s store))

  -- Given an event that is not terminating, the store makes the step that the inner machine makes
  -- from the value at the path (from the default value, if there is none) with the effector: it
  -- returns the same event under the path, and writes the same value there. The effector is left
  -- as the inner machine leaves it, under the path, if an event is returned, and else untouched.
  pub step_inner :
      (store : KvStore N V) (key : KeyPath N) (e : E) (env : Env N SE W)
      → term.terminating e ≡ false
      → let s = value_or default (get key store) in
        let inner = step m s (event e) env.effects.item in
        let (reported, store', env') =
          step (kv_fsm m term default) store (event (record { key = key; item = e })) env in
        (reported ≡ keyed_event key inner.0)
        × (store' ≡ insert key inner.1 store)
        × (env' ≡ retagged env key inner.0 inner.2)
  unfolding step kv_fsm on_event
  step_inner store key e env live = elim (Option-cases (get key store)) [
    | inl absent ↦
        rw (absent, live)
          (changed_inner store key e env (m.on_event default e).0 (m.on_event default e).1)
    | inr (v, present) ↦
        rw (present, live) (changed_inner store key e env (m.on_event v e).0 (m.on_event v e).1)
  ]
