-- ===== src/KvStore/Map/Lookup.antt =====
-- `get` after the operations that change the map.
use Prim.Native.Nat.Ordering.{eq}
use edfsm.Prelude.{◌≡◌, refl, none, some, List, [], ◌∷◌, Ord, arith}
use edfsm.KvStore.Map.{get, insert, remove}
use edfsm.KvStore.Map.Order.{Above, IsSorted, Above-trans}

module _ {ℓ κ} {K : Type ℓ} {V : Type κ} ⦃o : Ord K⦄ where
  pub get-insert :
      (p q : K) (w : V) (l : List (K × V))
      → get p (insert q w l) ≡ (elim (o.cmp p q) [ eq ↦ some w | _ ↦ get p l ])
  unfolding get insert
  get-insert p q w [] = ground arith
  get-insert p q w ((k, v) ∷ l) = ground (
    arith,
    get-insert p q w l,
    o.eq_of_cmp p q,
    o.eq_of_cmp q k,
    o.eq_of_cmp p k,
    o.lt_trans p q k,
    o.lt_of_gt p q,
    o.lt_of_gt q k,
    o.lt_trans k q p,
    o.gt_of_lt p q,
    o.gt_of_lt k p,
  )

  pub get-Above : (q : K) (l : List (K × V)) → Above q l → get q l ≡ none
  unfolding get
  get-Above q [] a = refl
  get-Above q ((k, v) ∷ l) a = rw (a.0, get)

  pub get-remove :
      (p q : K) (l : List (K × V))
      → IsSorted l
      → get p (remove q l) ≡ (elim (o.cmp p q) [ eq ↦ none | _ ↦ get p l ])
  unfolding get remove
  get-remove p q [] s = ground arith
  get-remove p q ((k, v) ∷ l) s = ground (
    arith,
    get-remove p q l,
    o.eq_of_cmp p q,
    o.eq_of_cmp q k,
    o.eq_of_cmp p k,
    o.cmp_refl q,
    o.lt_trans p q k,
    o.lt_trans p k q,
    get-Above k l,
    get-Above p l,
    Above-trans p k l,
    o.lt_of_gt p k,
  )

  -- Writing the value that a key has already changes nothing.
  pub insert-get : (q : K) (w : V) (l : List (K × V)) → get q l ≡ some w → insert q w l ≡ l
  unfolding get insert
  insert-get q w [] h = cc
  insert-get q w ((k, v) ∷ l) h = ground (arith, insert-get q w l)

  pub get-insert_self : (q : K) (w : V) (l : List (K × V)) → get q (insert q w l) ≡ some w
  get-insert_self q w l = rw get-insert (rw (o.cmp_refl q))
