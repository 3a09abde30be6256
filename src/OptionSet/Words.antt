-- ===== src/OptionSet/Words.antt =====
-- sanecpp/sanecpp.cpp: options that hold numbers, and the values of an option. Doubles are the
-- parameter `Numbers`.
use air_sane.Prelude.{
  ℕ, zero, suc, ◌&&◌, Bool, true, false, not, List, [], ◌∷◌, ◌++◌, map, Option, none, some, ltb,
  ◌==◌, if◌then◌else◌,
}
use air_sane.Prelude.Int.{ℤ}
use air_sane.Text.{Bytes, codes}
use air_sane.Sane.{Run, ok, ◌>>=◌}
use air_sane.Sane.Session.{is_good}
use air_sane.OptionSet.{
  OptionUnit, no_unit, pixel, bit, mm, dpi, percent, microsecond, ValueType, fixed, Constraint,
  range, word_list, Device, Entry, OptionSet, array_size, finish_write, is_active, is_settable,
  is_string, is_numeric, set_string_value, string_value,
}

-- What the code does with doubles. `unfix` and `fix` are the macros of SANE for fixed-point words.
pub record Numbers (D : Type 0) : Type 0 where
  pub nan : D
  pub infinity : D
  pub minus_infinity : D
  pub of_word : ℤ → D
  pub unfix : D → D
  pub fix : D → ℤ
  pub to_word : D → ℤ
  pub lt : D → D → Bool
  pub strtod_c : Bytes → D
  pub dtostr_c : D → Bytes

-- `print` of a unit. The two bytes of "µ" are those of UTF-8.
unfoldable pub unit_text : OptionUnit → Bytes
unit_text no_unit = []
unit_text bit = codes "bit"
unit_text dpi = codes "dpi"
unit_text microsecond = 0xc2 ∷ 0xb5 ∷ codes "s"
unit_text mm = codes "mm"
unit_text percent = codes "%"
unit_text pixel = codes "px"

abbrev pub is_fixed : ValueType → Bool
is_fixed fixed = true
is_fixed _ = false

-- `data[index] = w`.
abbrev pub set_word : List ℤ → ℕ → ℤ → List ℤ
set_word [] i w = []
set_word (x ∷ xs) zero w = w ∷ xs
set_word (x ∷ xs) (suc i) w = x ∷ set_word xs i w

abbrev pub word_at : List ℤ → ℕ → Option ℤ
word_at [] i = none
word_at (x ∷ xs) zero = some x
word_at (x ∷ xs) (suc i) = word_at xs i

module _ (device : Device) {D : Type 0} (n : Numbers D) where
  open device use {World, Pointer, descriptor, get_words, set_words}
  open n use {nan, infinity, minus_infinity, of_word, unfix, fix, to_word, lt, strtod_c, dtostr_c}

  -- A number that the device holds, as the type of the option reads it.
  abbrev pub unfixed : ValueType → D → D
  unfixed t x = if is_fixed t then unfix x else x

  abbrev pub word_of : ValueType → D → ℤ
  word_of t x = if is_fixed t then fix x else to_word x

  -- The write of one word of an array, which is read first.
  unfoldable pub write_word :
      ℕ → Entry Pointer → ℕ → ℤ → OptionSet Pointer → World → Run (Bool × OptionSet Pointer × World)
  unfolding finish_write
  write_word fuel e i x s w =
      let ((status, words), w') = get_words e.index w in
      if is_good status
      then (let (answer, w'') = set_words e.index (set_word words i x) w' in
          finish_write device fuel s answer w'')
      else ok (false, s, w')

  -- An index that is out of range is logged, and the answer is true.
  unfoldable pub set_numeric_value :
      ℕ
      → Option (Entry Pointer)
      → ℕ
      → D
      → OptionSet Pointer × World
      → Run (Bool × OptionSet Pointer × World)
  unfolding finish_write write_word array_size
  set_numeric_value fuel none i value (s, w) = ok (false, s, w)
  set_numeric_value fuel (some e) i value (s, w) =
      let x = word_of (descriptor e.pointer w).value_type value in
      if s.has_device && is_numeric device e w && is_settable device e w && is_active device e w
      then (if array_size device e w == 1 && i == 0
          then (let (answer, w') = set_words e.index (x ∷ []) w in
              finish_write device fuel s answer w')
          else if ltb i (array_size device e w)
          then write_word fuel e i x s w
          else ok (true, s, w))
      else ok (false, s, w)

  unfoldable pub word_value : ValueType → Option ℤ → D
  word_value t none = nan
  word_value t (some x) = unfixed t (of_word x)

  unfoldable pub numeric_value : Option (Entry Pointer) → ℕ → OptionSet Pointer × World → D × World
  unfolding array_size word_value
  numeric_value none i (s, w) = (nan, w)
  numeric_value (some e) i (s, w) =
      if s.has_device && is_numeric device e w && ltb i (array_size device e w)
      then (let ((status, words), w') = get_words e.index w in
          (
            if is_good status
                then word_value (descriptor e.pointer w').value_type (word_at words i)
                else nan,
            w',
          ))
      else (nan, w)

  -- `set_value` of a text, and of a number.
  unfoldable pub set_value :
      ℕ
      → Option (Entry Pointer)
      → ℕ
      → Bytes
      → OptionSet Pointer × World
      → Run (Bool × OptionSet Pointer × World)
  unfolding set_string_value set_numeric_value
  set_value fuel o i text (s, w) = do
    (done, s', w') ← set_string_value device fuel o i text (s, w)
    if done then ok (true, s', w') else set_numeric_value fuel o i (strtod_c text) (s', w')

  unfoldable pub set_number :
      ℕ
      → Option (Entry Pointer)
      → ℕ
      → D
      → OptionSet Pointer × World
      → Run (Bool × OptionSet Pointer × World)
  unfolding set_string_value set_numeric_value
  set_number fuel o i x (s, w) = do
    (done, s', w') ← set_numeric_value fuel o i x (s, w)
    if done then ok (true, s', w') else set_string_value device fuel o i (dtostr_c x) (s', w')

  unfoldable pub value : Option (Entry Pointer) → ℕ → OptionSet Pointer × World → Bytes × World
  unfolding array_size string_value numeric_value unit_text
  value none i (s, w) = (codes "n/a", w)
  value (some e) i (s, w) =
      let (x, w') = numeric_value (some e) i (s, w) in
      if not (ltb i (array_size device e w))
      then (codes "n/a", w)
      else if is_string device e w
      then string_value device (some e) i (s, w)
      else if is_numeric device e w
      then (dtostr_c x ++ unit_text (descriptor e.pointer w').unit, w')
      else (codes "n/a", w)

  abbrev pub word_values : Bool → Constraint → List D
  word_values true (word_list words) = map of_word words
  word_values _ _ = []

  unfoldable pub allowed_numeric_values : Option (Entry Pointer) → World → List D
  allowed_numeric_values none w = []
  allowed_numeric_values (some e) w =
      let d = descriptor e.pointer w in
      map (unfixed d.value_type) (word_values (is_numeric device e w) d.constraint)

  -- `std::min` and `std::max` over the words, from a first value on.
  abbrev pub least : D → List ℤ → D
  least x [] = x
  least x (y ∷ words) = least (if lt (of_word y) x then of_word y else x) words

  abbrev pub greatest : D → List ℤ → D
  greatest x [] = x
  greatest x (y ∷ words) = greatest (if lt x (of_word y) then of_word y else x) words

  abbrev pub lower_bound : Constraint → D
  lower_bound (range lo hi quant) = of_word lo
  lower_bound (word_list words) = least infinity words
  lower_bound _ = nan

  abbrev pub upper_bound : Constraint → D
  upper_bound (range lo hi quant) = of_word hi
  upper_bound (word_list words) = greatest minus_infinity words
  upper_bound _ = nan

  unfoldable pub min : Option (Entry Pointer) → World → D
  min none w = nan
  min (some e) w = let d = descriptor e.pointer w in unfixed d.value_type (lower_bound d.constraint)

  unfoldable pub max : Option (Entry Pointer) → World → D
  max none w = nan
  max (some e) w = let d = descriptor e.pointer w in unfixed d.value_type (upper_bound d.constraint)

  abbrev pub step_of : ValueType → Constraint → D
  step_of t (range lo hi quant) = unfixed t (of_word quant)
  step_of t _ = nan

  unfoldable pub quant : Option (Entry Pointer) → World → D
  quant none w = nan
  quant (some e) w = let d = descriptor e.pointer w in step_of d.value_type d.constraint
