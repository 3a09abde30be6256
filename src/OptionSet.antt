-- ===== src/OptionSet.antt =====
-- sanecpp/sanecpp.cpp: `option` and `option_set`, the options of a device. The C interface of SANE is
-- the parameter `Device`. A reference to an option is an entry
-- of the map, or `none` for `s_nulloption`.
pub mod Words
pub mod Reloading
pub mod Writing
pub mod Ending
use air_sane.Prelude.{
  ℕ, zero, suc, ◌+◌, ◌/◌, ◌&&◌, Bool, true, false, not, List, [], ◌∷◌, ◌++◌, map, Option, none,
  some, null, length, ltb, ◌==◌, if◌then◌else◌,
}
use air_sane.Prelude.Int.{ℤ}
use air_sane.Text.{Bytes, codes, equal}
use air_sane.Sane.{SaneStatus, good, Run, ok, out_of_fuel, ◌>>=◌}
use air_sane.Sane.Session.{is_good}
use air_sane.Scanner.{less}

pub data OptionUnit : Type 0 where
  no_unit pixel bit mm dpi percent microsecond : OptionUnit

pub data ValueType : Type 0 where
  bool int fixed string button group : ValueType

pub data Constraint : Type 0 where
  unconstrained : Constraint
  range : ℤ → ℤ → ℤ → Constraint
  word_list : List ℤ → Constraint
  string_list : List Bytes → Constraint

-- SANE_Option_Descriptor. A name that is null is empty, `active` and `settable` are the macros on
-- its capabilities.
pub record Descriptor : Type 0 where
  pub name : Bytes
  pub value_type : ValueType
  pub unit : OptionUnit
  pub size : ℕ
  pub active : Bool
  pub settable : Bool
  pub constraint : Constraint

-- The calls for the options of an open device. `descriptor` reads through a pointer.
-- The writes say whether SANE_INFO_RELOAD_OPTIONS was set.
pub record Device : Type 1 where
  pub World : Type 0
  pub Pointer : Type 0
  pub get_option_descriptor : ℕ → World → Option Pointer
  pub descriptor : Pointer → World → Descriptor
  pub get_words : ℕ → World → (SaneStatus × List ℤ) × World
  pub set_words : ℕ → List ℤ → World → (SaneStatus × Bool) × World
  pub get_string : ℕ → World → (SaneStatus × Bytes) × World
  pub set_string : ℕ → Bytes → World → (SaneStatus × Bool) × World

-- `m_desc` and `m_index`.
pub record Entry (P : Type 0) : Type 0 where
  pub pointer : P
  pub index : ℕ

pub record OptionSet (P : Type 0) : Type 0 where
  pub has_device : Bool
  pub options : List (Bytes × Entry P)

module _ {P : Type 0} where
  -- `operator[]`.
  unfoldable pub find_option : List (Bytes × Entry P) → Bytes → Option (Entry P)
  unfolding equal
  find_option [] key = none
  find_option ((k, e) ∷ m) key = if equal k key then some e else find_option m key

  -- `m_options[key] = entry`, and a write to an entry that is there.
  unfoldable pub put_option : List (Bytes × Entry P) → Bytes → Entry P → List (Bytes × Entry P)
  unfolding equal less
  put_option [] key entry = (key, entry) ∷ []
  put_option ((k, e) ∷ m) key entry =
      if equal k key
      then (k, entry) ∷ m
      else if less key k
      then (key, entry) ∷ (k, e) ∷ m
      else (k, e) ∷ put_option m key entry

abbrev pub is_string_type : ValueType → Bool
is_string_type string = true
is_string_type _ = false

abbrev pub is_numeric_type : ValueType → Bool
is_numeric_type int = true
is_numeric_type fixed = true
is_numeric_type bool = true
is_numeric_type _ = false

-- A word has four bytes.
abbrev pub size_of : ValueType → ℕ → ℕ
size_of button size = 0
size_of group size = 0
size_of string size = 1
size_of int size = size / 4
size_of fixed size = size / 4
size_of bool size = size / 4

-- The names of a list, up to the first one that is empty.
abbrev pub names_of : List Bytes → List Bytes
names_of [] = []
names_of (name ∷ names) = if null name then [] else name ∷ names_of names

abbrev pub string_values : Bool → Constraint → List Bytes
string_values true (string_list names) = names_of names
string_values _ _ = []

module _ (device : Device) where
  open device use {
    World, Pointer, get_option_descriptor, descriptor, get_words, set_words, get_string, set_string,
  }

  -- The loop of `init` and `reload`, from index `i` on.
  unfoldable pub register :
      ℕ → ℕ → List (Bytes × Entry Pointer) → World → Run (List (Bytes × Entry Pointer))
  register zero i m w = out_of_fuel
  register (suc fuel) i m w = elim (get_option_descriptor i w) [
    | none ↦ ok m
    | some d ↦
        let name = (descriptor d w).name in
        register fuel (i + 1)
          (if null name then m else put_option m name (record { pointer = d; index = i })) w
  ]

  unfoldable pub init : ℕ → Bool → World → Run (OptionSet Pointer)
  init fuel has_device w =
      if has_device
      then (do m ← register fuel 1 [] w; ok (record { has_device = true; options = m }))
      else ok (record { has_device = false; options = [] })

  unfoldable pub reload : ℕ → OptionSet Pointer → World → Run (OptionSet Pointer)
  reload fuel s w = do m ← register fuel 1 s.options w; ok (record s { options = m })

  abbrev pub get : OptionSet Pointer → Bytes → Option (Entry Pointer)
  get s name = find_option s.options name

  -- `is_null` is that there is no entry.
  abbrev pub is_null : Option (Entry Pointer) → Bool
  is_null none = true
  is_null (some e) = false

  abbrev pub is_active : Entry Pointer → World → Bool
  is_active e w = (descriptor e.pointer w).active

  abbrev pub is_settable : Entry Pointer → World → Bool
  is_settable e w = (descriptor e.pointer w).settable

  abbrev pub is_string : Entry Pointer → World → Bool
  is_string e w = is_string_type (descriptor e.pointer w).value_type

  abbrev pub is_numeric : Entry Pointer → World → Bool
  is_numeric e w = is_numeric_type (descriptor e.pointer w).value_type

  unfoldable pub array_size : Entry Pointer → World → ℕ
  array_size e w = let d = descriptor e.pointer w in size_of d.value_type d.size

  -- What ends a write: the options are read again if the device asks for it.
  unfoldable pub finish_write :
      ℕ → OptionSet Pointer → SaneStatus × Bool → World → Run (Bool × OptionSet Pointer × World)
  unfolding reload
  finish_write fuel s (status, stale) w =
      if stale
      then (do s' ← reload fuel s w; ok (is_good status, s', w))
      else ok (is_good status, s, w)

  unfoldable pub set_string_value :
      ℕ
      → Option (Entry Pointer)
      → ℕ
      → Bytes
      → OptionSet Pointer × World
      → Run (Bool × OptionSet Pointer × World)
  unfolding finish_write
  set_string_value fuel none i value (s, w) = ok (false, s, w)
  set_string_value fuel (some e) i value (s, w) =
      if s.has_device && is_string e w && i == 0 && is_settable e w && is_active e w
      then (let (answer, w') = set_string e.index value w in finish_write fuel s answer w')
      else ok (false, s, w)

  unfoldable pub string_value :
      Option (Entry Pointer) → ℕ → OptionSet Pointer × World → Bytes × World
  string_value none i (s, w) = ([], w)
  string_value (some e) i (s, w) =
      if s.has_device && is_string e w && i == 0
      then (let ((status, text), w') = get_string e.index w in
          (if is_good status then text else [], w'))
      else ([], w)

  unfoldable pub allowed_string_values : Option (Entry Pointer) → World → List Bytes
  allowed_string_values none w = []
  allowed_string_values (some e) w =
      string_values (is_string e w) (descriptor e.pointer w).constraint

  abbrev pub unit_of : Option (Entry Pointer) → World → OptionUnit
  unit_of none w = no_unit
  unit_of (some e) w = (descriptor e.pointer w).unit
