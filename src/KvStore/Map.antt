-- ===== src/KvStore/Map.antt =====
-- The standard library's `BTreeMap`, as far as edfsm-kv-store/src/lib.rs uses it: the entries in
-- ascending order of their keys.
pub mod Order
pub mod Lookup
pub mod Extensional
use Prim.Native.Nat.Ordering.{lt, eq, gt}
use edfsm.Prelude.{Bool, true, false, Option, none, some, List, [], ◌∷◌, Ord, if◌then◌else◌, ◌&&◌}

-- enum Bound
pub data Bound {ℓ} (K : Type ℓ) : Type ℓ where
  included excluded : K → Bound K
  unbounded : Bound K

module _ {ℓ κ} {K : Type ℓ} {V : Type κ} where
  unfoldable pub keep : (K → Bool) → List (K × V) → List (K × V)
  keep test [] = []
  keep test ((k, v) ∷ l) = if test k then (k, v) ∷ keep test l else keep test l

  -- Iterator::take_while, by a test on the key
  unfoldable pub take_while : (K → Bool) → List (K × V) → List (K × V)
  take_while test [] = []
  take_while test ((k, v) ∷ l) = if test k then (k, v) ∷ take_while test l else []

module _ {ℓ κ} {K : Type ℓ} {V : Type κ} ⦃o : Ord K⦄ where
  unfoldable pub get : K → List (K × V) → Option V
  get q [] = none
  get q ((k, v) ∷ l) = elim (o.cmp q k) [ lt ↦ none | eq ↦ some v | gt ↦ get q l ]

  -- `insert`, which replaces the value of a key that is there
  unfoldable pub insert : K → V → List (K × V) → List (K × V)
  insert q w [] = (q, w) ∷ []
  insert q w ((k, v) ∷ l) = elim (o.cmp q k) [
    | lt ↦ (q, w) ∷ (k, v) ∷ l
    | eq ↦ (k, w) ∷ l
    | gt ↦ (k, v) ∷ insert q w l
  ]

  unfoldable pub remove : K → List (K × V) → List (K × V)
  remove q [] = []
  remove q ((k, v) ∷ l) = elim (o.cmp q k) [ lt ↦ (k, v) ∷ l | eq ↦ l | gt ↦ (k, v) ∷ remove q l ]

module _ {ℓ} {K : Type ℓ} ⦃o : Ord K⦄ where
  unfoldable pub above : Bound K → K → Bool
  above (included a) k = elim (o.cmp a k) [ gt ↦ false | _ ↦ true ]
  above (excluded a) k = elim (o.cmp a k) [ lt ↦ true | _ ↦ false ]
  above unbounded k = true

  unfoldable pub below : Bound K → K → Bool
  below (included b) k = elim (o.cmp k b) [ gt ↦ false | _ ↦ true ]
  below (excluded b) k = elim (o.cmp k b) [ lt ↦ true | _ ↦ false ]
  below unbounded k = true

  -- `range` panics if the start is greater than the end, or if they are equal and both excluded.
  unfoldable pub range_panics : Bound K → Bound K → Bool
  range_panics (excluded a) (excluded b) = elim (o.cmp a b) [ lt ↦ false | _ ↦ true ]
  range_panics (included a) (included b) = elim (o.cmp a b) [ gt ↦ true | _ ↦ false ]
  range_panics (included a) (excluded b) = elim (o.cmp a b) [ gt ↦ true | _ ↦ false ]
  range_panics (excluded a) (included b) = elim (o.cmp a b) [ gt ↦ true | _ ↦ false ]
  range_panics _ _ = false

module _ {ℓ κ} {K : Type ℓ} {V : Type κ} ⦃o : Ord K⦄ where
  -- The entries within the bounds, in order; `none` is a panic.
  unfoldable pub range : Bound K → Bound K → List (K × V) → Option (List (K × V))
  range lo hi l = if range_panics lo hi then none else some (keep (λ k. above lo k && below hi k) l)
