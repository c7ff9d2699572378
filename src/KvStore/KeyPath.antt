-- ===== src/KvStore/KeyPath.antt =====
-- edfsm-kv-store/src/path.rs: the paths by which the store is keyed. `Path` there is `KeyPath`
-- here. Names are `SmolStr`, of another library: a type `N` with an order.
pub mod Prefix
pub mod Conversions
pub mod Serde
pub mod Script
mod Tests
use Prim.Native.Nat.{Ordering, compare}
use Prim.Native.Nat.Ordering.{lt, eq, gt}
use edfsm.Prelude.{
  ℕ, ◌≡◌, refl, ap, Bool, true, false, List, [], ◌∷◌, ◌++◌, Ord, list_ord, length, arith,
  nat_cmp_refl, nat_eq_of_cmp, nat_lt_of_gt, nat_gt_of_lt, nat_lt_trans,
}

-- enum PathItem; a number is a `u64`
pub data PathItem {ℓ} (N : Type ℓ) : Type ℓ where
  number : ℕ → PathItem N
  name : N → PathItem N

-- struct Path(Vec<PathItem>)
abbrev pub KeyPath {ℓ} : Type ℓ → Type ℓ
KeyPath N = List (PathItem N)

module _ {ℓ} {N : Type ℓ} where
  unfoldable pub root : KeyPath N
  root = []

  unfoldable pub push : KeyPath N → PathItem N → KeyPath N
  push path item = path ++ item ∷ []

  -- `append`, and `/`; the item is converted by the caller's `Into`
  unfoldable pub append : {A : Type ℓ} → (A → PathItem N) → KeyPath N → A → KeyPath N
  unfolding push
  append into path item = push path (into item)

  unfoldable pub len : KeyPath N → ℕ
  len path = length path

  unfoldable pub is_empty : KeyPath N → Bool
  is_empty [] = true
  is_empty (x ∷ xs) = false

module _ {ℓ} {N : Type ℓ} ⦃o : Ord N⦄ where
  -- `derive(Ord)`: numbers come before names
  abbrev pub item_cmp : PathItem N → PathItem N → Ordering
  item_cmp (number a) (number b) = compare a b
  item_cmp (number a) (name t) = lt
  item_cmp (name s) (number b) = gt
  item_cmp (name s) (name t) = o.cmp s t

  pub item_refl : (x : PathItem N) → item_cmp x x ≡ eq
  item_refl (number a) = nat_cmp_refl a
  item_refl (name s) = o.cmp_refl s

  pub eq_of_item : (x y : PathItem N) → item_cmp x y ≡ eq → x ≡ y
  eq_of_item (number a) (number b) h = ap number (nat_eq_of_cmp a b h)
  eq_of_item (number a) (name t) h = cc
  eq_of_item (name s) (number b) h = cc
  eq_of_item (name s) (name t) h = ap name (o.eq_of_cmp s t h)

  pub item_lt_of_gt : (x y : PathItem N) → item_cmp x y ≡ gt → item_cmp y x ≡ lt
  item_lt_of_gt (number a) (number b) h = nat_lt_of_gt a b h
  item_lt_of_gt (number a) (name t) h = cc
  item_lt_of_gt (name s) (number b) h = refl
  item_lt_of_gt (name s) (name t) h = o.lt_of_gt s t h

  pub item_gt_of_lt : (x y : PathItem N) → item_cmp x y ≡ lt → item_cmp y x ≡ gt
  item_gt_of_lt (number a) (number b) h = nat_gt_of_lt a b h
  item_gt_of_lt (number a) (name t) h = refl
  item_gt_of_lt (name s) (number b) h = cc
  item_gt_of_lt (name s) (name t) h = o.gt_of_lt s t h

  pub item_trans : (x y z : PathItem N) → item_cmp x y ≡ lt → item_cmp y z ≡ lt → item_cmp x z ≡ lt
  item_trans (number a) (number b) (number c) h k = nat_lt_trans a b c h k
  item_trans (number a) y (name u) h k = refl
  item_trans (name s) (name t) (name u) h k = o.lt_trans s t u h k
  item_trans _ _ _ h k = cc

  instance abbrev pub item_ord : Ord (PathItem N)
  item_ord = record {
    cmp = item_cmp;
    cmp_refl = item_refl;
    eq_of_cmp = eq_of_item;
    lt_of_gt = item_lt_of_gt;
    gt_of_lt = item_gt_of_lt;
    lt_trans = item_trans;
  }
