-- ===== src/KvStore/Map/Order.antt =====
-- The entries are in strictly ascending order of their keys, and stay so.
use edfsm.Prelude.{List, [], ◌∷◌, Ord, ◌≺◌, arith}
use edfsm.KvStore.Map.{insert, remove}

module _ {ℓ κ} {K : Type ℓ} {V : Type κ} ⦃o : Ord K⦄ where
  -- every key is greater
  abbrev pub Above : K → List (K × V) → Type 0
  Above k [] = Unit
  Above k ((j, v) ∷ l) = k ≺ j × Above k l

  abbrev pub IsSorted : List (K × V) → Type 0
  IsSorted [] = Unit
  IsSorted ((k, v) ∷ l) = Above k l × IsSorted l

  pub Above-trans : (j k : K) (l : List (K × V)) → j ≺ k → Above k l → Above j l
  Above-trans j k [] h a = tt
  Above-trans j k ((i, v) ∷ l) h a = (o.lt_trans j k i h a.0, Above-trans j k l h a.1)

  Above-insert : (j q : K) (w : V) (l : List (K × V)) → j ≺ q → Above j l → Above j (insert q w l)
  unfolding insert
  Above-insert j q w [] h a = (h, tt)
  Above-insert j q w ((k, v) ∷ l) h a = ground (arith, Above-insert j q w l)

  pub insert-IsSorted : (q : K) (w : V) (l : List (K × V)) → IsSorted l → IsSorted (insert q w l)
  unfolding insert
  insert-IsSorted q w [] s = (tt, tt)
  insert-IsSorted q w ((k, v) ∷ l) s =
      ground (arith, insert-IsSorted q w l, Above-insert k q w l, Above-trans q k l, o.lt_of_gt q k)

  Above-remove : (j q : K) (l : List (K × V)) → Above j l → Above j (remove q l)
  unfolding remove
  Above-remove j q [] a = tt
  Above-remove j q ((k, v) ∷ l) a = ground (arith, Above-remove j q l)

  pub remove-IsSorted : (q : K) (l : List (K × V)) → IsSorted l → IsSorted (remove q l)
  unfolding remove
  remove-IsSorted q [] s = tt
  remove-IsSorted q ((k, v) ∷ l) s = ground (arith, remove-IsSorted q l, Above-remove k q l)
