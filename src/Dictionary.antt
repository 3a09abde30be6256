-- ===== src/Dictionary.antt =====
-- basic/dictionary.cpp and basic/dictionary.h: an insertion-ordered list of key and value pairs.
-- `getNumber` and the overload of `applyDefaultValue` for numbers read and print doubles through
-- the C++ streams, which are not modelled here.
pub mod Laws
use air_sane.Prelude.{Bool, true, false, List, [], ◌∷◌, ◌++◌, Option, none, some, if◌then◌else◌}
use air_sane.Text.{Bytes, equal}

abbrev pub Storage : Type 0
Storage = List (Bytes × Bytes)

-- The value at the first pair with the key: what the iterator of `find` points at.
unfoldable pub find : Storage → Bytes → Option Bytes
unfolding equal
find [] key = none
find ((k, v) ∷ m) key = if equal k key then some v else find m key

unfoldable pub has_key : Storage → Bytes → Bool
unfolding find
has_key m key = elim (find m key) [ none ↦ false | some _ ↦ true ]

-- `erase` of the iterator removes that one pair.
unfoldable pub erase_key : Storage → Bytes → Storage
unfolding equal
erase_key [] key = []
erase_key ((k, v) ∷ m) key = if equal k key then m else (k, v) ∷ erase_key m key

unfoldable pub get_string : Storage → Bytes → Bytes
unfolding find
get_string m key = elim (find m key) [ none ↦ [] | some v ↦ v ]

-- The dictionary and the value that the returned reference shows.
unfoldable pub apply_default_value : Storage → Bytes → Bytes → Storage × Bytes
unfolding find
apply_default_value m key value = elim (find m key) [
  | none ↦ (m ++ (key, value) ∷ [], value)
  | some v ↦ (m, v)
]

-- A write through the iterator.
assign_found : Storage → Bytes → Bytes → Storage
unfolding equal
assign_found [] key value = []
assign_found ((k, v) ∷ m) key value =
    if equal k key then (k, value) ∷ m else (k, v) ∷ assign_found m key value

-- `dict[key] = value`: the reference of `operator[]`, written to at once.
unfoldable pub assign : Storage → Bytes → Bytes → Storage
unfolding find assign_found
assign m key value = elim (find m key) [
  | none ↦ m ++ (key, value) ∷ []
  | some _ ↦ assign_found m key value
]
