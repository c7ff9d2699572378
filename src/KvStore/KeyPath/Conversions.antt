-- ===== src/KvStore/KeyPath/Conversions.antt =====
-- edfsm-kv-store/src/path.rs: the conversions to and from the items of a path, and what lies where in
-- a path. The texts of Rust (`&'static str`, `String`) and the constructors of `SmolStr` are
-- parameters.
use edfsm.Prelude.{
  ℕ, zero, suc, ◌<◌, ◌≡◌, refl, Option, none, some, List, [], ◌∷◌, ◌++◌, length, arith,
}
use edfsm.KvStore.KeyPath.{PathItem, KeyPath, number, name, push, append, len}

-- indexing: `none` where the slice would panic
unfoldable pub index {ℓ} : {A : Type ℓ} → List A → ℕ → Option A
index [] i = none
index (x ∷ xs) zero = some x
index (x ∷ xs) (suc i) = index xs i

index-++ {ℓ} :
    {A : Type ℓ} (xs ys : List A) (i : ℕ) → i < length xs → index (xs ++ ys) i ≡ index xs i
unfolding index
index-++ [] ys i h = absurd (omega arith)
index-++ (x ∷ xs) ys zero h = refl
index-++ (x ∷ xs) ys (suc i) h = index-++ xs ys i (omega arith)

index_last {ℓ} : {A : Type ℓ} (xs : List A) (y : A) → index (xs ++ y ∷ []) (length xs) ≡ some y
unfolding index
index_last [] y = refl
index_last (x ∷ xs) y = index_last xs y

module _ {ℓ} {N : Type ℓ} where
  -- `derive(TryInto)`: the contents of the variant, if it is that one
  unfoldable pub try_number : PathItem N → Option ℕ
  try_number (number n) = some n
  try_number (name s) = none

  unfoldable pub try_name : PathItem N → Option N
  try_name (number n) = none
  try_name (name s) = some s

  -- impl From<&'static str> for PathItem; the argument is `SmolStr::new_static`
  unfoldable pub from_str : {Str : Type ℓ} → (Str → N) → Str → PathItem N
  from_str new_static value = name (new_static value)

  -- impl From<String> for PathItem; the argument is `SmolStr::new`
  unfoldable pub from_string : {Text : Type ℓ} → (Text → N) → Text → PathItem N
  from_string new value = name (new value)

  -- impl Div for Path
  unfoldable pub div : {A : Type ℓ} → (A → PathItem N) → KeyPath N → A → KeyPath N
  unfolding append
  div into path item = append into path item

  -- the items, in order
  unfoldable pub iter : KeyPath N → List (PathItem N)
  iter path = path

  -- What is appended is found behind all that was there, which stays where it was.
  pub index-append :
      {A : Type ℓ} (into : A → PathItem N) (path : KeyPath N) (item : A)
      → (index (append into path item) (len path) ≡ some (into item))
        × ((i : ℕ) → i < len path → index (append into path item) i ≡ index path i)
  unfolding append push len
  index-append into path item =
      (index_last path (into item), λ i h. index-++ path (into item ∷ []) i h)
