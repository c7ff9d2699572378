-- ===== src/KvStore/KeyPath/Script.antt =====
-- The function `path_test` of edfsm-kv-store/src/path.rs, as a program over paths of texts.
use Prim.Native.Nat.{◌-◌}
use Prim.Native.String.{String}
use text.Mathlib.Text.{◌==◌ as text_eq}
use edfsm.Prelude.{ℕ, ◌==◌, Bool, true, false, ◌&&◌, Option, some, List, [], ◌∷◌}
use edfsm.KvStore.KeyPath.{PathItem, KeyPath, number, name, root, len}
use edfsm.KvStore.KeyPath.Conversions.{index, from_str, from_string, div, iter}

-- `SmolStr::new_static` and `SmolStr::new`, where a name is its text
abbrev pub small_str : String → String
small_str s = s

-- building from various types
unfoldable pub built : KeyPath String
unfolding div from_str from_string root
built =
    div (from_string small_str) (div number (div (from_str small_str) root "CSMS") 65) "EVSE-V1.6"

unfoldable pub built_path : KeyPath String
unfolding built div
built_path = div number built 2

-- `.try_into().unwrap()`, of an item that may not be there, against a number or a name
abbrev pub is_number : Option (PathItem String) → ℕ → Bool
is_number (some (number m)) n = m == n
is_number _ n = false

abbrev pub is_name : Option (PathItem String) → String → Bool
is_name (some (name s)) t = text_eq s t
is_name _ t = false

-- pattern matching
abbrev pub matched : KeyPath String → Bool
matched (name x ∷ number csms ∷ rest) = text_eq x "CSMS" && csms == 65
matched _ = false

-- the `for` loop, which breaks at the first number
abbrev pub first_number : List (PathItem String) → Bool
first_number [] = true
first_number (number csms ∷ rest) = csms == 65
first_number (name s ∷ rest) = first_number rest

unfoldable pub path_test : KeyPath String → Bool
unfolding index len iter
path_test path =
    is_number (index path 3) 2
    && is_name (index path 2) "EVSE-V1.6"
    && is_number (index path (len path - 1)) 2
    && matched path
    && is_number (index (iter path) 1) 65
    && first_number (iter path)
