-- ===== src/Prelude/Order.antt =====
-- The bound `Ord`: a comparison into an ordering, with the laws that the trait documents.
use mathlib.Core.Path.{◌≡◌}
use native.Mathlib.Omega.{arith}
use Prim.Native.Nat.Ordering.{lt, eq, gt}
use Prim.Native.Nat.{ℕ, Ordering, compare}

pub record Ord {κ} (Key : Type κ) : Type κ where
  pub cmp : Key → Key → Ordering
  -- what is strictly ordered: transitive, and the two strict answers mirror each other
  pub lt_trans : (x y z : Key) → cmp x y ≡ lt → cmp y z ≡ lt → cmp x z ≡ lt
  pub gt_of_lt : (x y : Key) → cmp x y ≡ lt → cmp y x ≡ gt
  pub lt_of_gt : (x y : Key) → cmp x y ≡ gt → cmp y x ≡ lt
  -- `Equal` is equality
  pub eq_of_cmp : (x y : Key) → cmp x y ≡ eq → x ≡ y
  pub cmp_refl : (x : Key) → cmp x x ≡ eq

-- strictly before
infix 50 ◌≺◌
abbrev pub ◌≺◌ {κ} : {Key : Type κ} ⦃order : Ord Key⦄ → Key → Key → Type 0
◌≺◌ ⦃order⦄ x y = order.cmp x y ≡ lt

pub nat_eq_of_cmp : (a b : ℕ) → compare a b ≡ eq → a ≡ b
nat_eq_of_cmp a b h = ground arith

pub nat_lt_of_gt : (a b : ℕ) → compare a b ≡ gt → compare b a ≡ lt
nat_lt_of_gt a b h = ground arith

pub nat_gt_of_lt : (a b : ℕ) → compare a b ≡ lt → compare b a ≡ gt
nat_gt_of_lt a b h = ground arith

pub nat_lt_trans : (a b c : ℕ) → compare a b ≡ lt → compare b c ≡ lt → compare a c ≡ lt
nat_lt_trans a b c h k = ground arith

pub nat_cmp_refl : (a : ℕ) → compare a a ≡ eq
nat_cmp_refl a = ground arith

instance abbrev pub nat_ord : Ord ℕ
nat_ord = record {
  cmp = compare;
  cmp_refl = nat_cmp_refl;
  eq_of_cmp = nat_eq_of_cmp;
  lt_of_gt = nat_lt_of_gt;
  gt_of_lt = nat_gt_of_lt;
  lt_trans = nat_lt_trans;
}
