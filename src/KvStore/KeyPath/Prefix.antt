-- ===== src/KvStore/KeyPath/Prefix.antt =====
-- The order of paths and their prefixes: the paths that start with a given one stand together.
-- Stated for lists over any order; `KeyPath` is one.
use Prim.Native.Nat.{Ordering}
use Prim.Native.Nat.Ordering.{lt, eq, gt}
use edfsm.Prelude.{◌≡◌, refl, Bool, true, false, List, [], ◌∷◌, Ord, lex, arith, length, ltb, ◌||◌}

abbrev pub is_eq : Ordering → Bool
is_eq eq = true
is_eq _ = false

module _ {ℓ} {K : Type ℓ} ⦃o : Ord K⦄ where
  abbrev pub starts_with : List K → List K → Bool
  starts_with [] ys = true
  starts_with (x ∷ xs) [] = false
  starts_with (x ∷ xs) (y ∷ ys) = elim (o.cmp x y) [ eq ↦ starts_with xs ys | _ ↦ false ]

  -- behind `path`, and not one that starts with it
  abbrev pub past : List K → List K → Bool
  past [] ys = false
  past (x ∷ xs) [] = false
  past (x ∷ xs) (y ∷ ys) = elim (o.cmp x y) [ lt ↦ true | eq ↦ past xs ys | gt ↦ false ]

  -- A path that starts with `xs` is not before `xs`.
  pub lex-starts_with :
      (xs ys : List K) → starts_with xs ys ≡ true → (lex xs ys ≡ gt → ⊥) × (past xs ys ≡ false)
  lex-starts_with [] [] h = (λ e. cc, refl)
  lex-starts_with [] (y ∷ ys) h = (λ e. cc, refl)
  lex-starts_with (x ∷ xs) [] h = cc
  lex-starts_with (x ∷ xs) (y ∷ ys) h = ground (arith, lex-starts_with xs ys)

  -- Every path is before `xs`, starts with it, or is past those that do.
  pub lex_cases :
      (xs ys : List K)
      → (elim (lex xs ys) [ gt ↦ false | _ ↦ true ])
        ≡ (elim (starts_with xs ys) [ true ↦ true | false ↦ past xs ys ])
  lex_cases [] [] = refl
  lex_cases [] (y ∷ ys) = refl
  lex_cases (x ∷ xs) [] = refl
  lex_cases (x ∷ xs) (y ∷ ys) = ground (arith, lex_cases xs ys)

  -- Past is closed upwards.
  pub past-lt : (xs ys zs : List K) → past xs ys ≡ true → lex ys zs ≡ lt → past xs zs ≡ true
  past-lt [] ys zs h k = cc
  past-lt (x ∷ xs) [] zs h k = cc
  past-lt (x ∷ xs) (y ∷ ys) [] h k = cc
  past-lt (x ∷ xs) (y ∷ ys) (z ∷ zs) h k =
      ground (arith, past-lt xs ys zs, o.eq_of_cmp x y, o.eq_of_cmp y z, o.lt_trans x y z)

  -- What starts with `xs` is longer than `xs`, or is `xs`.
  pub length-starts_with :
      (xs ys : List K)
      → starts_with xs ys ≡ true
      → (ltb (length xs) (length ys) || is_eq (lex ys xs)) ≡ true
  length-starts_with [] [] h = refl
  length-starts_with [] (y ∷ ys) h = ground arith
  length-starts_with (x ∷ xs) [] h = cc
  length-starts_with (x ∷ xs) (y ∷ ys) h =
      ground (arith, o.eq_of_cmp x y, o.cmp_refl x, length-starts_with xs ys)

  pub past_irrefl : (xs : List K) → past xs xs ≡ false
  past_irrefl [] = refl
  past_irrefl (x ∷ xs) = rw (o.cmp_refl x, past) (past_irrefl xs)
