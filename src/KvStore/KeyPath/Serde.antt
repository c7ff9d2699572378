-- ===== src/KvStore/KeyPath/Serde.antt =====
-- edfsm-kv-store/src/path.rs: `derive(Serialize, Deserialize)` on paths, with `serde(untagged)` on
-- their items. A format of serde is a parameter: what it makes of a number, a text and a sequence.
use Prim.Native.Nat.{◌^◌}
use edfsm.Prelude.{ℕ, ◌<◌, ◌≡◌, refl, Option, none, some, List, [], ◌∷◌, All}
use edfsm.KvStore.KeyPath.{PathItem, KeyPath, number, name}

-- A serializer and a deserializer, by the values that they are asked for.
pub record Format {ℓ} (N D : Type ℓ) : Type ℓ where
  pub put_u64 : ℕ → D
  pub put_str : N → D
  pub put_seq : List D → D
  pub get_u64 : D → Option ℕ
  pub get_str : D → Option N
  pub get_seq : D → Option (List D)

-- a `u64`
abbrev pub IsU64 : ℕ → Type 0
IsU64 n = n < 2 ^ 64

-- What a format that describes itself promises, as JSON does and a query string does not: what is
-- written is read back, a number read is a `u64`, and no text reads as a number.
pub record IsSelfDescribing {ℓ} {N D : Type ℓ} (f : Format N D) : Type ℓ where
  pub get_u64-put_u64 : (n : ℕ) → IsU64 n → f.get_u64 (f.put_u64 n) ≡ some n
  pub get_u64-put_str : (s : N) → f.get_u64 (f.put_str s) ≡ none
  pub get_str-put_str : (s : N) → f.get_str (f.put_str s) ≡ some s
  pub get_seq-put_seq : (l : List D) → f.get_seq (f.put_seq l) ≡ some l
  pub get_u64-IsU64 : (d : D) (n : ℕ) → f.get_u64 d ≡ some n → IsU64 n

-- The number of an item is a `u64`.
abbrev pub IsItem {ℓ} : {N : Type ℓ} → PathItem N → Type 0
IsItem (number n) = IsU64 n
IsItem (name s) = Unit

-- The variants are tried in the order of their declaration, and the first that fits is taken.
unfoldable pub untagged {ℓ} : {N : Type ℓ} → Option ℕ → Option N → Option (PathItem N)
untagged (some n) t = some (number n)
untagged none (some s) = some (name s)
untagged none none = none

-- `collect` into an `Option`: nothing if one is missing
unfoldable pub both {ℓ} : {A : Type ℓ} → Option A → Option (List A) → Option (List A)
both (some x) (some l) = some (x ∷ l)
both _ _ = none

both-All {ℓ κ} :
    {A : Type ℓ} {P : A → Type κ} (x : Option A) (l : Option (List A)) (path : List A)
    → both x l ≡ some path
    → ((y : A) → x ≡ some y → P y)
    → ((ys : List A) → l ≡ some ys → All P ys)
    → All P path
unfolding both
both-All none l path h px pl = cc
both-All (some y) none path h px pl = cc
both-All (some y) (some ys) [] h px pl = tt
both-All (some y) (some ys) (z ∷ zs) h px pl = (px z cc, pl zs cc)

module _ {ℓ} {N D : Type ℓ} (f : Format N D) where
  -- Serialize for PathItem, untagged: the contents of the variant
  unfoldable pub serialize_item : PathItem N → D
  serialize_item (number n) = f.put_u64 n
  serialize_item (name s) = f.put_str s

  -- Deserialize for PathItem
  unfoldable pub deserialize_item : D → Option (PathItem N)
  deserialize_item d = untagged (f.get_u64 d) (f.get_str d)

  unfoldable pub serialize_items : List (PathItem N) → List D
  serialize_items [] = []
  serialize_items (x ∷ xs) = serialize_item x ∷ serialize_items xs

  unfoldable pub deserialize_items : List D → Option (List (PathItem N))
  deserialize_items [] = some []
  deserialize_items (d ∷ ds) = both (deserialize_item d) (deserialize_items ds)

  -- of a vector that may be missing
  unfoldable pub deserialize_vec : Option (List D) → Option (KeyPath N)
  deserialize_vec none = none
  deserialize_vec (some ds) = deserialize_items ds

  -- Serialize for Path: the vector in it
  unfoldable pub serialize : KeyPath N → D
  serialize path = f.put_seq (serialize_items path)

  -- Deserialize for Path
  unfoldable pub deserialize : D → Option (KeyPath N)
  deserialize d = deserialize_vec (f.get_seq d)

module _ {ℓ} {N D : Type ℓ} {f : Format N D} (laws : IsSelfDescribing f) where
  deserialize_item-serialize_item :
      (x : PathItem N) → IsItem x → deserialize_item f (serialize_item f x) ≡ some x
  unfolding deserialize_item serialize_item untagged
  deserialize_item-serialize_item (number n) h = rw (laws.get_u64-put_u64 n h) refl
  deserialize_item-serialize_item (name s) h =
      rw (laws.get_u64-put_str s, laws.get_str-put_str s) refl

  deserialize_items-serialize_items :
      (path : KeyPath N)
      → All IsItem path
      → deserialize_items f (serialize_items f path) ≡ some path
  unfolding deserialize_items serialize_items both
  deserialize_items-serialize_items [] h = refl
  deserialize_items-serialize_items (x ∷ xs) h =
      rw (deserialize_item-serialize_item x h.0, deserialize_items-serialize_items xs h.1) refl

  -- In a format that describes itself, a path whose numbers are below 2 ^ 64 is read back as it was
  -- written: numbers as numbers and names as names.
  pub deserialize-serialize :
      (path : KeyPath N) → All IsItem path → deserialize f (serialize f path) ≡ some path
  unfolding deserialize serialize deserialize_vec
  deserialize-serialize path h =
      rw (laws.get_seq-put_seq (serialize_items f path), deserialize_items-serialize_items path h)
        refl
