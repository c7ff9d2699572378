-- ===== src/KvStore/KeyPath/Tests.antt =====
-- The paths of the tests in edfsm-kv-store/src/path.rs, and the theorems at them, with a format that
-- tells numbers from texts as JSON does.
use Prim.Native.Nat.{◌^◌}
use edfsm.Prelude.{
  ℕ, ◌<◌, ◌≡◌, refl, ap, true, Option, none, some, List, [], ◌∷◌, ltb, if◌then◌else◌, arith,
}
use edfsm.KvStore.KeyPath.{PathItem, KeyPath, number, name, root, push, append, len}
use edfsm.KvStore.KeyPath.Script.{built, built_path, path_test}
use edfsm.KvStore.KeyPath.Conversions.{
  index, try_number, from_str, from_string, div, iter, index-append,
}
use edfsm.KvStore.KeyPath.Serde.{
  Format, IsU64, IsSelfDescribing, both, untagged, serialize_item, serialize_items, serialize,
  deserialize_item, deserialize_items, deserialize_vec, deserialize, deserialize-serialize,
}

data Label : Type 0 where
  csms evse : Label

data Json : Type 0 where
  num : ℕ → Json
  str : Label → Json
  end : Json
  item : Json → Json → Json

abbrev put_array : List Json → Json
put_array [] = end
put_array (x ∷ xs) = item x (put_array xs)

abbrev get_array : Json → Option (List Json)
unfolding both
get_array end = some []
get_array (item x rest) = both (some x) (get_array rest)
get_array _ = none

abbrev get_num : Json → Option ℕ
get_num (num n) = if ltb n (2 ^ 64) then some n else none
get_num _ = none

abbrev get_text : Json → Option Label
get_text (str s) = some s
get_text _ = none

abbrev json : Format Label Json
json = record {
  put_u64 = num;
  put_str = str;
  put_seq = put_array;
  get_u64 = get_num;
  get_str = get_text;
  get_seq = get_array;
}

get_array-put_array : (l : List Json) → get_array (put_array l) ≡ some l
unfolding both
get_array-put_array [] = refl
get_array-put_array (x ∷ xs) = ap (both (some x)) (get_array-put_array xs)

get_num-IsU64 : (d : Json) (n : ℕ) → get_num d ≡ some n → IsU64 n
get_num-IsU64 (num m) n h = ground arith
get_num-IsU64 (str s) n h = cc
get_num-IsU64 end n h = cc
get_num-IsU64 (item x r) n h = cc

json-IsSelfDescribing : IsSelfDescribing json
json-IsSelfDescribing = record {
  get_u64-put_u64 = λ n h. ground arith;
  get_u64-put_str = λ s. refl;
  get_str-put_str = λ s. refl;
  get_seq-put_seq = get_array-put_array;
  get_u64-IsU64 = get_num-IsU64;
}

abbrev csms_path : KeyPath Label
csms_path = name csms ∷ number 65 ∷ name evse ∷ number 2 ∷ []

abbrev csms_json : Json
csms_json = item (str csms) (item (num 65) (item (str evse) (item (num 2) end)))

-- path_serialisation_json
serialize_csms : serialize json csms_path ≡ csms_json
unfolding serialize serialize_items serialize_item
serialize_csms = refl

-- path_deserialisation_json
deserialize_csms : deserialize json csms_json ≡ some csms_path
unfolding deserialize deserialize_vec deserialize_items deserialize_item untagged both
deserialize_csms = refl

deserialize-serialize_example : deserialize json (serialize json csms_path) ≡ some csms_path
deserialize-serialize_example =
    deserialize-serialize json-IsSelfDescribing csms_path
      (tt, (omega arith, (tt, (omega arith, tt))))

-- path_test: the last item of `root() / "CSMS" / 65` is the number
abbrev last_number : PathItem Label
last_number = number 65

try_number_last : try_number last_number ≡ some 65
unfolding try_number
try_number_last = refl

index-append_example :
    (index (append number (append (from_str (λ s. s)) root csms) 65) 1 ≡ some (number 65))
    × ((i : ℕ)
        → i < 1
        → index (append number (append (from_str (λ s. s)) root csms) 65) i
          ≡ index (append (from_str (λ s. s)) root csms) i)
unfolding len append push root
index-append_example = index-append number (append (from_str (λ s. s)) root csms) 65

path_test_passes : path_test built_path ≡ true
unfolding path_test built_path built div append push root from_str from_string index len iter
path_test_passes = refl
