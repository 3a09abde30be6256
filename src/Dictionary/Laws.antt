-- ===== src/Dictionary/Laws.antt =====
-- The map laws of the dictionary.
use air_sane.Prelude.{
  ◌≡◌, refl, true, false, [], ◌∷◌, ◌++◌, none, some, arith, if◌then◌else◌, Option-cases, inl, inr,
}
use air_sane.Text.{Bytes, equal, equal_iff, equal_refl}
use air_sane.Dictionary.{
  Storage, find, has_key, erase_key, get_string, apply_default_value, assign_found, assign,
}

find-append_miss :
    (m : Storage) (key other value : Bytes)
    → find m key ≡ none
    → find (m ++ (key, value) ∷ []) other ≡ (if equal key other then some value else find m other)
unfolding find
find-append_miss [] key other value h = refl
find-append_miss ((k, v) ∷ m) key other value h = ground (
  arith,
  find-append_miss m key other value,
  equal_iff k key,
  equal_iff k other,
  equal_iff key other,
)

find-assign_found :
    (m : Storage) (key other value old : Bytes)
    → find m key ≡ some old
    → find (assign_found m key value) other ≡ (if equal key other then some value else find m other)
unfolding find assign_found
find-assign_found [] key other value old h = cc
find-assign_found ((k, v) ∷ m) key other value old h = ground (
  arith,
  find-assign_found m key other value old,
  equal_iff k key,
  equal_iff k other,
  equal_iff key other,
)

-- An assignment to a dictionary is seen under its key and under no other.
pub find-assign :
    (m : Storage) (key other value : Bytes)
    → find (assign m key value) other ≡ (if equal key other then some value else find m other)
unfolding assign
find-assign m key other value = elim (Option-cases (find m key)) [
  | inl e ↦ rw (e, assign) (find-append_miss m key other value e)
  | inr (v, e) ↦ rw (e, assign) (find-assign_found m key other value v e)
]

-- No key stands twice.
abbrev pub IsDistinct : Storage → Type 0
IsDistinct [] = Unit
IsDistinct ((k, v) ∷ m) = (find m k ≡ none) × IsDistinct m

append-IsDistinct :
    (m : Storage) (key value : Bytes)
    → IsDistinct m
    → find m key ≡ none
    → IsDistinct (m ++ (key, value) ∷ [])
unfolding find
append-IsDistinct [] key value d h = (refl, tt)
append-IsDistinct ((k, v) ∷ m) key value d h = ground (
  arith,
  append-IsDistinct m key value d.1,
  find-append_miss m key k value,
  equal_iff k key,
  equal_iff key k,
)

assign_found-IsDistinct :
    (m : Storage) (key value old : Bytes)
    → IsDistinct m
    → find m key ≡ some old
    → IsDistinct (assign_found m key value)
unfolding find assign_found
assign_found-IsDistinct [] key value old d h = tt
assign_found-IsDistinct ((k, v) ∷ m) key value old d h = ground (
  arith,
  assign_found-IsDistinct m key value old d.1,
  find-assign_found m key k value old,
  equal_iff k key,
  equal_iff key k,
)

-- An assignment to a dictionary without repeated keys leaves one without repeated keys.
pub assign-IsDistinct :
    (m : Storage) (key value : Bytes) → IsDistinct m → IsDistinct (assign m key value)
unfolding assign
assign-IsDistinct m key value d = elim (Option-cases (find m key)) [
  | inl e ↦ rw (e, assign) (append-IsDistinct m key value d e)
  | inr (v, e) ↦ rw (e, assign) (assign_found-IsDistinct m key value v d e)
]

-- Erasing a key from a dictionary without repeated keys removes that key and no other.
pub find-erase_key :
    (m : Storage) (key other : Bytes)
    → IsDistinct m
    → find (erase_key m key) other ≡ (if equal key other then none else find m other)
unfolding find erase_key
find-erase_key [] key other d = ground arith
find-erase_key ((k, v) ∷ m) key other d =
    ground (
      arith,
      find-erase_key m key other d.1,
      equal_iff k key,
      equal_iff k other,
      equal_iff key other,
    )

pub erase_key-IsDistinct : (m : Storage) (key : Bytes) → IsDistinct m → IsDistinct (erase_key m key)
unfolding erase_key
erase_key-IsDistinct [] key d = tt
erase_key-IsDistinct ((k, v) ∷ m) key d = ground (
  arith,
  erase_key-IsDistinct m key d.1,
  find-erase_key m key k d.1,
  equal_iff k key,
  equal_iff key k,
)

-- A default value is taken for a missing key only, and the answer is what the key then holds.
pub apply_default_value_lem :
    (m : Storage) (key value : Bytes)
    → (find (apply_default_value m key value).0 key ≡ some (apply_default_value m key value).1)
      × (has_key m key ≡ true
          → ((apply_default_value m key value).0 ≡ m)
            × ((apply_default_value m key value).1 ≡ get_string m key))
      × (has_key m key ≡ false → apply_default_value m key value ≡ (assign m key value, value))
unfolding apply_default_value has_key get_string assign
apply_default_value_lem m key value = elim (Option-cases (find m key)) [
  | inl e ↦ ground (arith, e, find-append_miss m key key value e, equal_refl key)
  | inr (v, e) ↦ ground (arith, e)
]
