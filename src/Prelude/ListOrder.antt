-- ===== src/Prelude/ListOrder.antt =====
-- `Ord` for `Vec<T>`: lexicographic, a proper prefix before what extends it.
use Prim.Native.Nat.{Ordering}
use Prim.Native.Nat.Ordering.{lt, eq, gt}
use mathlib.Core.Path.{◌≡◌, refl}
use mathlib.Core.List.{List, [], ◌∷◌}
use native.Mathlib.Omega.{arith}
use edfsm.Prelude.Order.{Ord}

abbrev pub then : Ordering → Ordering → Ordering
then eq second = second
then first _ = first

module _ {ℓ} {K : Type ℓ} ⦃o : Ord K⦄ where
  abbrev pub lex : List K → List K → Ordering
  lex [] [] = eq
  lex [] (y ∷ ys) = lt
  lex (x ∷ xs) [] = gt
  lex (x ∷ xs) (y ∷ ys) = then (o.cmp x y) (lex xs ys)

  pub lex_refl : (xs : List K) → lex xs xs ≡ eq
  lex_refl [] = refl
  lex_refl (x ∷ xs) = rw (o.cmp_refl x, then) (lex_refl xs)

  pub eq_of_lex : (xs ys : List K) → lex xs ys ≡ eq → xs ≡ ys
  eq_of_lex [] [] h = refl
  eq_of_lex [] (y ∷ ys) h = cc
  eq_of_lex (x ∷ xs) [] h = cc
  eq_of_lex (x ∷ xs) (y ∷ ys) h = ground (arith, o.eq_of_cmp x y, eq_of_lex xs ys)

  pub lex-lt_of_gt : (xs ys : List K) → lex xs ys ≡ gt → lex ys xs ≡ lt
  lex-lt_of_gt [] [] h = cc
  lex-lt_of_gt [] (y ∷ ys) h = cc
  lex-lt_of_gt (x ∷ xs) [] h = refl
  lex-lt_of_gt (x ∷ xs) (y ∷ ys) h =
      ground (arith, o.eq_of_cmp x y, o.cmp_refl x, o.lt_of_gt x y, lex-lt_of_gt xs ys)

  pub lex-gt_of_lt : (xs ys : List K) → lex xs ys ≡ lt → lex ys xs ≡ gt
  lex-gt_of_lt [] [] h = cc
  lex-gt_of_lt [] (y ∷ ys) h = refl
  lex-gt_of_lt (x ∷ xs) [] h = cc
  lex-gt_of_lt (x ∷ xs) (y ∷ ys) h =
      ground (arith, o.eq_of_cmp x y, o.cmp_refl x, o.gt_of_lt x y, lex-gt_of_lt xs ys)

  pub lex_trans : (xs ys zs : List K) → lex xs ys ≡ lt → lex ys zs ≡ lt → lex xs zs ≡ lt
  lex_trans [] [] zs h k = cc
  lex_trans [] (y ∷ ys) [] h k = cc
  lex_trans [] (y ∷ ys) (z ∷ zs) h k = refl
  lex_trans (x ∷ xs) [] zs h k = cc
  lex_trans (x ∷ xs) (y ∷ ys) [] h k = cc
  lex_trans (x ∷ xs) (y ∷ ys) (z ∷ zs) h k =
      ground (arith, o.eq_of_cmp x y, o.eq_of_cmp y z, o.lt_trans x y z, lex_trans xs ys zs)

  instance abbrev pub list_ord : Ord (List K)
  list_ord = record {
    cmp = lex;
    cmp_refl = lex_refl;
    eq_of_cmp = eq_of_lex;
    lt_of_gt = lex-lt_of_gt;
    gt_of_lt = lex-gt_of_lt;
    lt_trans = lex_trans;
  }
