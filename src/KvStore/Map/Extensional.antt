-- ===== src/KvStore/Map/Extensional.antt =====
-- A map is what `get` says of it: the entries in order are a canonical form.
use Prim.Native.Nat.{Ordering}
use Prim.Native.Nat.Ordering.{lt, eq, gt}
use edfsm.Prelude.{
  ◌≡◌, refl, sym, ap, subst, ◌∙◌, none, some, List, [], ◌∷◌, Ord, arith, ◌⊎◌, inl, inr,
}
use edfsm.KvStore.Map.{get}
use edfsm.KvStore.Map.Order.{Above, IsSorted, Above-trans}
use edfsm.KvStore.Map.Lookup.{get-Above}

Ordering-cases : (r : Ordering) → (r ≡ lt) ⊎ ((r ≡ gt) ⊎ (r ≡ eq))
Ordering-cases lt = inl refl
Ordering-cases gt = inr (inl refl)
Ordering-cases eq = inr (inr refl)

module _ {ℓ κ} {K : Type ℓ} {V : Type κ} ⦃o : Ord K⦄ where
  get_first : (k : K) (v : V) (l : List (K × V)) → get k ((k, v) ∷ l) ≡ some v
  unfolding get
  get_first k v l = rw (o.cmp_refl k, get)

  get_nil : (k : K) → get {V = V} k [] ≡ none
  unfolding get
  get_nil k = refl

  -- Two maps that agree begin with the same key: neither can begin earlier.
  no_earlier :
      (k j : K) (v w : V) (xs ys : List (K × V))
      → o.cmp k j ≡ lt
      → get k ((k, v) ∷ xs) ≡ get k ((j, w) ∷ ys)
      → ⊥
  unfolding get
  no_earlier k j v w xs ys e h = ground (arith, o.cmp_refl k)

  -- What is behind a first entry agrees too.
  tails_agree :
      (k : K) (v w : V) (xs ys : List (K × V))
      → Above k xs
      → Above k ys
      → ((p : K) → get p ((k, v) ∷ xs) ≡ get p ((k, w) ∷ ys))
      → (p : K) → get p xs ≡ get p ys
  unfolding get
  tails_agree k v w xs ys a b h p = ground (
    arith,
    h p,
    o.eq_of_cmp p k,
    get-Above k xs a,
    get-Above k ys b,
    get-Above p xs,
    get-Above p ys,
    Above-trans p k xs,
    Above-trans p k ys,
  )

  -- Maps that agree on every key are equal.
  pub get-ext :
      (xs ys : List (K × V)) → IsSorted xs → IsSorted ys → ((p : K) → get p xs ≡ get p ys) → xs ≡ ys
  get-ext [] [] s t h = refl
  get-ext [] ((j, w) ∷ ys) s t h = cc (h j, get_nil j, get_first j w ys)
  get-ext ((k, v) ∷ xs) [] s t h = cc (h k, get_nil k, get_first k v xs)
  get-ext ((k, v) ∷ xs) ((j, w) ∷ ys) s t h = elim (Ordering-cases (o.cmp k j)) [
    | inl before ↦ absurd (no_earlier k j v w xs ys before (h k))
    | inr (inl after) ↦ absurd (no_earlier j k w v ys xs (o.lt_of_gt k j after) (sym (h j)))
    | inr (inr same) ↦ same_key (o.eq_of_cmp k j same) (get-ext xs ys s.1 t.1)
  ]
    where
      same_key : k ≡ j → (((p : K) → get p xs ≡ get p ys) → xs ≡ ys) → ((k, v) ∷ xs) ≡ ((j, w) ∷ ys)
      same_key e rest =
          let agree : (p : K) → get p ((k, v) ∷ xs) ≡ get p ((k, w) ∷ ys) =
            λ p. h p ∙ ap (λ i. get p ((i, w) ∷ ys)) (sym e) in
          let values : some v ≡ some w = sym (get_first k v xs) ∙ agree k ∙ get_first k w ys in
          let behind : Above k ys = subst (λ i. Above i ys) (sym e) t.0 in
          let tails : xs ≡ ys = rest (tails_agree k v w xs ys s.0 behind agree) in
          cc (e, values, tails)
