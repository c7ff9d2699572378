-- ===== src/KvStore/Requester/Queries.antt =====
-- The queries of edfsm-kv-store/src/async_query.rs as messages, and what a run of the store of
-- edfsm-kv-store/src/lib.rs replies to them.
use edfsm.Prelude.{
  ◌≡◌, refl, sym, ap, ap₂, subst, ◌∙◌, false, Option, none, some, List, [], ◌∷◌, map, Ord, list_ord,
}
use edfsm.Fsm.{Input, command, Fsm, Terminating, Drain, step}
use edfsm.Machine.Action.{◌>>◌}
use edfsm.Machine.Adapter.{notify}
use edfsm.Machine.Task.Trace.{ends, trace}
use edfsm.KvStore.KeyPath.{KeyPath, item_ord}
use edfsm.KvStore.Map
use edfsm.KvStore.Map.Order.{IsSorted}
use edfsm.KvStore.Store.{
  Keyed, KvStore, Env, Query, RespondOne, for_command, kv_fsm, keyed_drain, keyed_terminating,
}
use edfsm.KvStore.Store.Commands.{step_read, step-upsert, step-upsert-IsSorted}
use edfsm.KvStore.Requester.{
  Oneshot, Requester, Extant, extant as extant_of, is_some, awaited, respond_one, dispatch, get,
  upsert,
}
use edfsm.KvStore.Requester.Answered.{extant-presence, step-world}
use edfsm.KvStore.Requester.Served.Atomic.{
  Request, read, write, Reply, value, extant, Slots, answer, update,
}

abbrev pub slots_in {ℓ} : {N V : Type ℓ} ⦃o : Ord N⦄ → KvStore N V → Slots N V
slots_in store p = Map.get p store

module _ {ℓ κ μ} {W : Type ℓ} {R : Type κ} {Tx Rx X : Type μ} (values : Oneshot W R Tx Rx X)
    (extants : Oneshot W Extant Tx Rx X) where
  -- The message that `get` or `upsert` sends, with the sender of its oneshot channel.
  unfoldable pub query : {N V E : Type ℓ} → Tx × Request N V E R → Input (Query N W V E) (Keyed N E)
  unfolding respond_one extant_of
  query (tx, read path func) = command (Query.get path (respond_one values tx (λ v. (func v, tt))))
  query (tx, write path func) =
      command (Query.upsert path (respond_one extants tx (λ v. (extant_of (is_some v), func v))))

  -- A reply, sent over the oneshot channel of its request.
  abbrev pub replied_over : Tx → Reply R → W → W
  replied_over tx (value r) w = values.send tx r w
  replied_over tx (extant e) w = extants.send tx e w

-- What the two requests send is such a message, with the sender that they make.
get-query {ℓ κ μ} :
    {N W V E : Type ℓ} {R : Type κ} {Tx Rx X : Type μ} (values : Oneshot W R Tx Rx X)
    (extants : Oneshot W Extant Tx Rx X) (self : Requester N W V E) (path : KeyPath N)
    (func : Option V → R) (w : W)
    → let ((tx, rx), w') = values.channel w in
      get values self path func w
      ≡ (notify self (query values extants (tx, read path func)) >> λ v. awaited (values.recv rx v))
          w'
unfolding get dispatch query
get-query values extants self path func w = refl

upsert-query {ℓ κ μ} :
    {N W V E : Type ℓ} {R : Type κ} {Tx Rx X : Type μ} (values : Oneshot W R Tx Rx X)
    (extants : Oneshot W Extant Tx Rx X) (self : Requester N W V E) (path : KeyPath N)
    (func : Option V → E) (w : W)
    → let ((tx, rx), w') = extants.channel w in
      upsert extants self path func w
      ≡ (notify self (query values extants (tx, write path func)) >> λ v.
            awaited (extants.recv rx v))
          w'
unfolding upsert dispatch query
upsert-query values extants self path func w = refl

module _ {ℓ κ μ} {N V C E SE : Type ℓ} {R : Type κ} {Tx : Type μ} ⦃o : Ord N⦄ (m : Fsm V C E SE)
    (term : Terminating E) (default : V) where
  -- The map behind requests that are served in no time, one after another.
  abbrev pub all_updated : List (Tx × Request N V E R) → Slots N V → Slots N V
  all_updated [] slots = slots
  all_updated ((tx, r) ∷ rs) slots = all_updated rs (update m term default r slots)

drained-world {ℓ} :
    {N SE O W : Type ℓ} (d : Drain SE O) (env : Env N SE W)
    → ((keyed_drain d).drain_all env).1.world ≡ env.world
unfolding keyed_drain
drained-world d env = refl

module _ {ℓ κ μ} {N V C E SE W : Type ℓ} {R : Type κ} {Tx Rx X : Type μ} ⦃o : Ord N⦄
    (m : Fsm V C E SE) (term : Terminating E) (default : V) (values : Oneshot W R Tx Rx X)
    (extants : Oneshot W Extant Tx Rx X) where
  -- The replies to them.
  abbrev pub all_replied : List (Tx × Request N V E R) → Slots N V → W → W
  all_replied [] slots w = w
  all_replied ((tx, r) ∷ rs) slots w =
      all_replied rs (update m term default r slots)
        (replied_over values extants tx (answer r slots) w)

  step-query :
      (tx : Tx) (r : Request N V E R) (store : KvStore N V) (env : Env N SE W)
      → IsSorted store
      → let after = step (kv_fsm m term default) store (query values extants (tx, r)) env in
        (after.2.world ≡ replied_over values extants tx (answer r (slots_in store)) env.world)
        × (slots_in after.1 ≡ update m term default r (slots_in store))
        × IsSorted after.1
  unfolding query kv_fsm for_command respond_one extant_of
  step-query tx (read path func) store env s =
      let q : Query N W V E = Query.get path (respond_one values tx (λ v. (func v, tt))) in
      let kept = (step_read m term default store q env tt).1 in
      (
        step-world m term default store q env,
        (λ i p. Map.get p (kept i)),
        subst IsSorted (sym kept) s,
      )
  step-query tx (write path func) store env s =
      let respond : RespondOne W V E =
        respond_one extants tx (λ v. (extant_of (is_some v), func v)) in
      (
        step-world m term default store (Query.upsert path respond) env
            ∙ ap (λ r. extants.send tx r env.world) (extant-presence (Map.get path store)),
        (λ i p. step-upsert m term default p path respond store env s i),
        step-upsert-IsSorted m term default path respond store env s,
      )

  module _ {O : Type ℓ} (d : Drain SE O) where
    never_ends :
        (e : Option (Keyed N E))
        → ends (kv_fsm {SE = SE} {W = W} m term default) (keyed_drain d) keyed_terminating e ≡ false
    unfolding keyed_terminating
    never_ends none = refl
    never_ends (some e) = refl

    pub trace-replied :
        (rs : List (Tx × Request N V E R)) (store : KvStore N V) (env : Env N SE W)
        → IsSorted store
        → let run =
            trace
              (kv_fsm m term default)
              (keyed_drain d)
              keyed_terminating
              store
              env
              (map (query values extants) rs) in
          (run.effects.world ≡ all_replied rs (slots_in store) env.world)
          × (slots_in run.state ≡ all_updated m term default rs (slots_in store))
    unfolding trace
    trace-replied [] store env s = (refl, refl)
    trace-replied ((tx, r) ∷ rs) store env s =
        let after = step (kv_fsm m term default) store (query values extants (tx, r)) env in
        let (world, slots, sorted) = step-query tx r store env s in
        let ready = ((keyed_drain d).drain_all after.2).1 in
        let (replies, left) = trace-replied rs after.1 ready sorted in
        rw (never_ends after.0) (
          replies ∙ ap₂ (all_replied rs) slots (drained-world d after.2 ∙ world),
          left ∙ ap (all_updated m term default rs) slots,
        )
