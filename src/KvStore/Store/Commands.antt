-- ===== src/KvStore/Store/Commands.antt =====
-- The queries of edfsm-kv-store/src/lib.rs.
use edfsm.Prelude.{
  ◌≡◌, refl, Bool, false, ◌&&◌, none, some, List, [], ◌∷◌, Ord, list_ord, lex, arith, if◌then◌else◌,
  Bool-cases, Option, Option-cases, inl, inr,
}
use edfsm.Fsm.{Input, command, Fsm, Terminating, step}
use edfsm.Fsm.Step.{step-state}
use edfsm.KvStore.KeyPath.{KeyPath, item_ord}
use edfsm.KvStore.KeyPath.Prefix.{is_eq}
use edfsm.KvStore.Map
use edfsm.KvStore.Map.{Bound, range, range_panics, above, below, keep}
use edfsm.KvStore.Map.Order.{IsSorted, Above-trans}
use edfsm.KvStore.Map.Lookup.{get-Above}
use edfsm.KvStore.Store.{
  Keyed, KvStore, RespondOne, RespondMany, Env, Query, answer, tree, for_command, kv_fsm,
}
use edfsm.KvStore.Store.Slots.{slot, get-on_event, on_event-IsSorted}

module _ {ℓ} {N W V E : Type ℓ} ⦃o : Ord N⦄ where
  -- The query panics: only a range with inverted bounds does.
  abbrev pub has_bad_bounds : Query N W V E → Bool
  has_bad_bounds (Query.get_range lo hi respond) = range_panics lo hi
  has_bad_bounds _ = false

  -- The queries that emit no event.
  abbrev pub IsRead : Query N W V E → Type 0
  IsRead (Query.upsert path respond) = ⊥
  IsRead (Query.insert respond) = ⊥
  IsRead _ = Unit

module _ {ℓ} {N W V C E SE : Type ℓ} ⦃o : Ord N⦄ (m : Fsm V C E SE) (term : Terminating E)
    (default : V) where
  -- A read returns no event, and leaves the store and the effector as they are.
  pub step_read :
      (store : KvStore N V) (q : Query N W V E) (env : Env N SE W)
      → IsRead q
      → let after = step (kv_fsm m term default) store (command q) env in
        (after.0 ≡ none) × (after.1 ≡ store) × (after.2.effects ≡ env.effects)
  unfolding step kv_fsm for_command tree range range_panics
  step_read store (Query.get path respond) env h = (refl, refl, refl)
  step_read store (Query.get_tree path respond) env h = (refl, refl, refl)
  step_read store (Query.get_range lo hi respond) env h = ground arith
  step_read store (Query.get_all respond) env h = (refl, refl, refl)
  step_read store (Query.upsert path respond) env h = absurd h
  step_read store (Query.insert respond) env h = absurd h

  -- In a store in order, `Upsert` hands its responder the value at the path, and applies the event that it gives to
  -- that path: the value there becomes what the inner machine makes of it, and all others stay.
  pub step-upsert :
      (p path : KeyPath N) (respond : RespondOne W V E) (store : KvStore N V) (env : Env N SE W)
      → IsSorted store
      → Map.get p (step (kv_fsm m term default) store (command (Query.upsert path respond)) env).1
        ≡ (if is_eq (lex p path)
            then slot m term default (Map.get p store) (respond (Map.get path store) env.world).0
            else Map.get p store)
  unfolding kv_fsm for_command
  step-upsert p path respond store env s =
      let q : Input (Query N W V E) (Keyed N E) = command (Query.upsert path respond) in
      let e : Keyed N E = record {
        key = path;
        item = (respond (Map.get path store) env.world).0;
      } in
      rw (step-state (kv_fsm m term default) store q e env refl)
        (get-on_event m term default p store e s)

  pub step-upsert-IsSorted :
      (path : KeyPath N) (respond : RespondOne W V E) (store : KvStore N V) (env : Env N SE W)
      → IsSorted store
      → let q : Input (Query N W V E) (Keyed N E) = command (Query.upsert path respond) in
        IsSorted (step (kv_fsm m term default) store q env).1
  unfolding kv_fsm for_command
  step-upsert-IsSorted path respond store env s =
      let q : Input (Query N W V E) (Keyed N E) = command (Query.upsert path respond) in
      let e : Keyed N E = record {
        key = path;
        item = (respond (Map.get path store) env.world).0;
      } in
      rw (step-state (kv_fsm m term default) store q e env refl)
        (on_event-IsSorted m term default store e s)

  -- In a store in order, `Insert` hands its responder all the entries, and applies the event that it gives to the path
  -- that it gives.
  pub step-insert :
      (p : KeyPath N) (respond : RespondMany N W V (Keyed N E)) (store : KvStore N V)
      (env : Env N SE W)
      → IsSorted store
      → let e = (respond store env.world).0 in
        Map.get p (step (kv_fsm m term default) store (command (Query.insert respond)) env).1 ≡ (
          if is_eq (lex p e.key)
          then slot m term default (Map.get p store) e.item
          else Map.get p store)
  unfolding kv_fsm for_command
  step-insert p respond store env s =
      let q : Input (Query N W V E) (Keyed N E) = command (Query.insert respond) in
      let e = (respond store env.world).0 in
      rw (step-state (kv_fsm m term default) store q e env refl)
        (get-on_event m term default p store e s)

module _ {ℓ κ} {K : Type ℓ} {V : Type κ} ⦃o : Ord K⦄ where
  pub get-keep :
      (p : K) (test : K → Bool) (l : List (K × V))
      → IsSorted l
      → Map.get p (keep test l) ≡ (if test p then Map.get p l else none)
  unfolding keep Map.get
  get-keep p test [] s = ground arith
  get-keep p test ((k, v) ∷ l) s = ground (
    arith,
    get-keep p test l s.1,
    o.eq_of_cmp p k,
    get-Above k l s.0,
    get-Above p l,
    Above-trans p k l,
  )

  range-eq-some :
      (lo hi : Bound K) (l entries : List (K × V))
      → range lo hi l ≡ some entries
      → keep (λ k. above lo k && below hi k) l ≡ entries
  unfolding range
  range-eq-some lo hi l entries h = elim (Bool-cases (range_panics lo hi)) [
    | inl bad ↦ cc (rw bad at h)
    | inr good ↦ cc (rw good at h)
  ]

  pub get-range :
      (p : K) (lo hi : Bound K) (l entries : List (K × V))
      → IsSorted l
      → range lo hi l ≡ some entries
      → Map.get p entries ≡ (if above lo p && below hi p then Map.get p l else none)
  get-range p lo hi l entries s h =
      rw (← range-eq-some lo hi l entries h) (get-keep p (λ k. above lo k && below hi k) l s)

module _ {ℓ} {N W V E SE : Type ℓ} ⦃o : Ord N⦄ where
  -- `GetRange` of a store in order, where it does not panic, hands its responder what lies within the bounds, with its
  -- values, and no more, and does nothing else.
  pub get_range_within :
      (lo hi : Bound (KeyPath N)) (respond : RespondMany N W V (Unit {0})) (store : KvStore N V)
      (env : Env N SE W) (r : Option (Keyed N E) × Env N SE W)
      → IsSorted store
      → for_command store (Query.get_range lo hi respond) env ≡ some r
      → (entries : List (KeyPath N × V)) × (r ≡ answer (respond entries env.world) env)
        × ((p : KeyPath N)
            → Map.get p entries ≡ (if above lo p && below hi p then Map.get p store else none))
  unfolding for_command
  get_range_within lo hi respond store env r s h = elim (Option-cases (range lo hi store)) [
    | inl bad ↦ cc (rw (for_command, bad) at h)
    | inr (entries, good) ↦
        (entries, cc (rw (for_command, good) at h), λ p. get-range p lo hi store entries s good)
  ]
