-- ===== src/KvStore/Store/Outputs.antt =====
-- What the store of edfsm-kv-store/src/lib.rs puts out, path by path: the outputs of the inner
-- machines, under their paths.
use edfsm.Prelude.{
  ◌≡◌, refl, Bool, true, false, Option, none, some, List, [], ◌∷◌, ◌++◌, map, Ord, list_ord, lex,
  lex_refl, arith, if◌then◌else◌,
}
use edfsm.Fsm.{
  Input, command, event, Change, Fsm, Terminating, Drain, emitted, changed, applied, step,
}
use edfsm.KvStore.KeyPath.{KeyPath, item_ord}
use edfsm.KvStore.KeyPath.Prefix.{is_eq}
use edfsm.KvStore.Map.{get, insert, remove, range_panics}
use edfsm.KvStore.Map.Order.{IsSorted}
use edfsm.KvStore.Map.Lookup.{get-insert_self, get-remove}
use edfsm.KvStore.Store.{
  Keyed, KvStore, Env, Query, for_command, at_entry, on_event, on_change, kv_fsm, keyed_drain,
}
use edfsm.KvStore.Store.Slots.{slot, items_at}
use edfsm.KvStore.Store.Inner.{value_or}

-- A drained effector is as new, and a new one has nothing to drain.
pub record IsDrainedTo {ℓ} {SE O : Type ℓ} (d : Drain SE O) (clean : SE) : Type ℓ where
  pub emptied : (se : SE) → (d.drain_all se).1 ≡ clean
  pub nothing : (d.drain_all clean).0 ≡ []

module _ {ℓ} {N A : Type ℓ} where
  abbrev pub tagged : KeyPath N → List A → List (Keyed N A)
  tagged key l = map (λ a. record { key = key; item = a }) l

module _ {ℓ} {N A : Type ℓ} ⦃o : Ord N⦄ where
  pub items_at-tagged :
      (p key : KeyPath N) (l : List A)
      → items_at p (tagged key l) ≡ (if is_eq (lex p key) then l else [])
  items_at-tagged p key [] = ground arith
  items_at-tagged p key (a ∷ l) = ground (arith, items_at-tagged p key l)

module _ {ℓ} {N V : Type ℓ} ⦃o : Ord N⦄ where
  gone :
      (key : KeyPath N) (store : KvStore N V) → IsSorted store → get key (remove key store) ≡ none
  gone key store s = rw (get-remove key key store s, lex_refl key) refl

module _ {ℓ} {V C E SE O : Type ℓ} (m : Fsm V C E SE) (d : Drain SE O) (term : Terminating E)
    (default : V) (clean : SE) where
  -- What the inner machine at one place puts out for an event; a terminating one puts out nothing,
  -- since it drops the machine.
  abbrev pub output_for : Bool → Option V → E → List O
  output_for true v e = []
  output_for false v e = (d.drain_all (step m (value_or default v) (event e) clean).2).0

  -- What one place of the store puts out, on its own.
  abbrev pub place_outputs : Option V → List E → List O
  place_outputs v [] = []
  place_outputs v (e ∷ es) =
      output_for (term.terminating e) v e ++ place_outputs (slot m term default v e) es

module _ {ℓ} {N V C E SE O W : Type ℓ} ⦃o : Ord N⦄ (m : Fsm V C E SE) (d : Drain SE O)
    (term : Terminating E) (default : V) (clean : SE) (drained : IsDrainedTo d clean) where
  -- What is drained behind a change or none, where the entry is there.
  changed-outputs :
      (key : KeyPath N) (e : E) (s : V) (c : Option Change) (store : KvStore N V) (env : Env N SE W)
      → env.effects.item ≡ clean
      → ((keyed_drain d).drain_all
          (changed
            (kv_fsm m term default)
            (record { key = key; item = e })
            (insert key s store, c)
            env).2).0
        ≡ tagged key (d.drain_all (changed m e (s, c) clean).2).0
  unfolding keyed_drain kv_fsm on_change
  changed-outputs key e s none store env h = rw (h, drained.nothing) refl
  changed-outputs key e s (some c) store env h = rw (get-insert_self key s store, h) refl

  entry-outputs :
      (key : KeyPath N) (e : E) (v : Option V) (t : Bool) (store : KvStore N V) (env : Env N SE W)
      → IsSorted store
      → env.effects.item ≡ clean
      → ((keyed_drain d).drain_all
          (changed
            (kv_fsm m term default)
            (record { key = key; item = e })
            (at_entry m term default key v t e store)
            env).2).0
        ≡ tagged key (output_for m d term default clean t v e)
  unfolding step keyed_drain kv_fsm on_change
  entry-outputs key e (some s) false store env sorted h =
      changed-outputs key e (m.on_event s e).0 (m.on_event s e).1 store env h
  entry-outputs key e none false store env sorted h =
      changed-outputs key e (m.on_event default e).0 (m.on_event default e).1 store env h
  entry-outputs key e (some s) true store env sorted h =
      rw (gone key store sorted, h, drained.nothing) refl
  entry-outputs key e none true store env sorted h = rw (h, drained.nothing) refl

  pub applied-outputs :
      (store : KvStore N V) (e : Keyed N E) (env : Env N SE W)
      → IsSorted store
      → env.effects.item ≡ clean
      → ((keyed_drain d).drain_all (applied (kv_fsm m term default) store (some e) env).2).0
        ≡ tagged e.key
            (output_for m d term default clean (term.terminating e.item) (get e.key store) e.item)
  unfolding kv_fsm on_event
  applied-outputs store e env s h =
      entry-outputs e.key e.item (get e.key store) (term.terminating e.item) store env s h

module _ {ℓ} {N W V C E SE : Type ℓ} ⦃o : Ord N⦄ (m : Fsm V C E SE) (term : Terminating E)
    (default : V) where
  -- A query leaves the effector alone.
  command-effects :
      (store : KvStore N V) (q : Query N W V E) (env : Env N SE W)
      → ((kv_fsm m term default).for_command store q env).1.effects ≡ env.effects
  unfolding kv_fsm for_command range_panics
  command-effects store (Query.get path respond) env = refl
  command-effects store (Query.get_tree path respond) env = refl
  command-effects store (Query.get_range lo hi respond) env = ground arith
  command-effects store (Query.get_all respond) env = refl
  command-effects store (Query.upsert path respond) env = refl
  command-effects store (Query.insert respond) env = refl

  pub emitted-effects :
      (store : KvStore N V) (i : Input (Query N W V E) (Keyed N E)) (env : Env N SE W)
      → (emitted (kv_fsm m term default) store i env).1.effects ≡ env.effects
  emitted-effects store (command q) env = command-effects store q env
  emitted-effects store (event e) env = refl
