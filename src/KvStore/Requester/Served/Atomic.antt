-- ===== src/KvStore/Requester/Served/Atomic.antt =====
-- A client that awaits each of its requests of edfsm-kv-store/src/async_query.rs sees a map whose
-- operations are atomic.
use edfsm.Prelude.{
  ◌≡◌, refl, sym, ap, ap₂, subst, ◌∙◌, Option, List, [], ◌∷◌, Ord, list_ord, lex, if◌then◌else◌,
}
use edfsm.Fsm.{Fsm, Terminating, Drain}
use edfsm.Machine.Action.{Result, ok, err, Error}
use edfsm.KvStore.KeyPath.{KeyPath, item_ord}
use edfsm.KvStore.KeyPath.Prefix.{is_eq}
use edfsm.KvStore.Map
use edfsm.KvStore.Map.Order.{IsSorted}
use edfsm.KvStore.Store.Slots.{slot}
use edfsm.KvStore.Store.Commands.{step-upsert-IsSorted}
use edfsm.KvStore.Requester.{Oneshot, Extant, respond_one, get, upsert}
use edfsm.KvStore.Requester.Answered.{Delivers, presence}
use edfsm.KvStore.Requester.Served.{
  Host, hosted, env_of, served, concluded, dispatch-concluded, upsert-served,
}
use edfsm.KvStore.Requester.Served.Many.{get-served}

-- A request for the value at a path, or to apply an event there.
pub data Request {ℓ κ} (N V E : Type ℓ) (R : Type κ) : Type (ℓ ⊔ κ) where
  read : KeyPath N → (Option V → R) → Request N V E R
  write : KeyPath N → (Option V → E) → Request N V E R

pub data Reply {κ} (R : Type κ) : Type κ where
  value : R → Reply R
  extant : Extant → Reply R

abbrev pub replied {ℓ κ μ} :
    {A : Type ℓ} {B : Type κ} {W : Type μ} → (A → B) → Result A Error × W → Result B Error × W
replied f (ok a, w) = (ok (f a), w)
replied f (err x, w) = (err x, w)

replied-ok {ℓ κ μ} :
    {A : Type ℓ} {B : Type κ} {W : Type μ} (f : A → B) (x : Result A Error × W) (a : A)
    → x.0 ≡ ok a
    → replied f x ≡ (ok (f a), x.1)
replied-ok f (ok b, w) a h = cc
replied-ok f (err e, w) a h = cc

-- The map from the paths.
abbrev pub Slots {ℓ} : Type ℓ → Type ℓ → Type ℓ
Slots N V = KeyPath N → Option V

-- A request that is served in no time: its reply, and the map that it leaves.
abbrev pub answer {ℓ κ} : {N V E : Type ℓ} {R : Type κ} → Request N V E R → Slots N V → Reply R
answer (read path func) slots = value (func (slots path))
answer (write path func) slots = extant (presence (slots path))

module _ {ℓ κ} {N V C E SE : Type ℓ} {R : Type κ} ⦃o : Ord N⦄ (m : Fsm V C E SE)
    (term : Terminating E) (default : V) where
  abbrev pub update : Request N V E R → Slots N V → Slots N V
  update (read path func) slots = slots
  update (write path func) slots =
      λ p. if is_eq (lex p path) then slot m term default (slots p) (func (slots path)) else slots p

  abbrev pub atomically :
      List (Request N V E R) → Slots N V → List (Result (Reply R) Error) × Slots N V
  atomically [] slots = ([], slots)
  atomically (r ∷ rs) slots =
      let (replies, slots') = atomically rs (update r slots) in
      (ok (answer r slots) ∷ replies, slots')

module _ {ℓ κ μ} {N V C E SE O P : Type ℓ} {R : Type κ} {Tx Rx X : Type μ} ⦃o : Ord N⦄
    (m : Fsm V C E SE) (d : Drain SE O) (term : Terminating E) (default : V)
    (values : Oneshot P R Tx Rx X) (extants : Oneshot P Extant Tx Rx X) where
  -- One request that is awaited, and one after another.
  unfoldable pub requested :
      Request N V E R → Host N V E SE O P → Result (Reply R) Error × Host N V E SE O P
  requested (read path func) h =
      replied value (get (hosted values) (served m d term default) path func h)
  requested (write path func) h =
      replied extant (upsert (hosted extants) (served m d term default) path func h)

  unfoldable pub in_turn :
      List (Request N V E R) → Host N V E SE O P → List (Result (Reply R) Error) × Host N V E SE O P
  unfolding requested
  in_turn [] h = ([], h)
  in_turn (r ∷ rs) h =
      let (reply, h') = requested r h in
      let (replies, h'') = in_turn rs h' in (reply ∷ replies, h'')

  abbrev pub slots_of : Host N V E SE O P → KeyPath N → Option V
  slots_of h p = Map.get p h.cells

  upsert-IsSorted :
      (path : KeyPath N) (func : Option V → E) (h : Host N V E SE O P)
      → IsSorted h.cells
      → IsSorted (upsert (hosted extants) (served m d term default) path func h).1.cells
  unfolding upsert respond_one concluded
  upsert-IsSorted path func h s =
      let asked : Host N V E SE O P = ((hosted extants).channel h).1 in
      rw (dispatch-concluded m d term default extants _ _ asked)
        (step-upsert-IsSorted m term default path _ asked.cells (env_of m d term default asked) s)

  module _ (values_deliver : Delivers values) (extants_deliver : Delivers extants) where
    requested-atomic :
        (r : Request N V E R) (h : Host N V E SE O P)
        → IsSorted h.cells
        → ((requested r h).0 ≡ ok (answer r (slots_of h)))
          × (slots_of (requested r h).1 ≡ update m term default r (slots_of h))
          × IsSorted (requested r h).1.cells
    unfolding requested
    requested-atomic (read path func) h s =
        let (answered, kept) = get-served m d term default values values_deliver path func h in
        let e = replied-ok value _ _ answered in
        (
          ap (λ (x : Result (Reply R) Error × Host N V E SE O P). x.0) e,
          rw e (λ i p. Map.get p (kept i)),
          rw e (subst IsSorted (sym kept) s),
        )
    requested-atomic (write path func) h s =
        let answered =
          (upsert-served m d term default extants path path func h extants_deliver s).0 in
        let e = replied-ok extant _ _ answered in
        (
          ap (λ (x : Result (Reply R) Error × Host N V E SE O P). x.0) e,
          rw e
              (λ i p. (upsert-served m d term default extants p path func h extants_deliver s).1 i),
          rw e (upsert-IsSorted path func h s),
        )

    -- For a store in order, oneshot channels that deliver, and a task that takes each input up at
    -- once, with a log, an observer and an output that are vectors: a client that makes gets and
    -- upserts, awaiting each, is answered without an error as by a map whose operations take no time.
    -- A get is answered by the function of the value at its path. An upsert is answered by whether
    -- there is a value there, and replaces it by what the inner machine makes of it and of the event
    -- that the function gives. In the end the store is that map.
    pub in_turn-atomically :
        (rs : List (Request N V E R)) (h : Host N V E SE O P)
        → IsSorted h.cells
        → let (replies, after) = in_turn rs h in
          let (promised, slots) = atomically m term default rs (slots_of h) in
          (replies ≡ promised) × ((p : KeyPath N) → Map.get p after.cells ≡ slots p)
    unfolding in_turn
    in_turn-atomically [] h s = (refl, λ p. refl)
    in_turn-atomically (r ∷ rs) h s =
        let (reply, slots, sorted) = requested-atomic r h s in
        let (replies, values) = in_turn-atomically rs (requested r h).1 sorted in
        (
          ap₂ ◌∷◌ reply
              (replies ∙ ap (λ (c : Slots N V). (atomically m term default rs c).0) slots),
          λ p. values p ∙ ap (λ (c : Slots N V). (atomically m term default rs c).1 p) slots,
        )
