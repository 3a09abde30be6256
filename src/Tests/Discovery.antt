-- ===== src/Tests/Discovery.antt =====
-- Witnesses and tests for what a scanner learns from its device, on a device with four options.
use air_sane.Prelude.{
  ℕ, zero, suc, ◌-◌, ◌*◌, ◌/◌, ◌%◌, ◌<◌, ◌≤◌, ◌≡◌, refl, Bool, true, false, List, [], ◌∷◌, none,
  some, ltb, leb, ◌==◌, if◌then◌else◌, arith,
}
use air_sane.Prelude.Int.{ℤ, pos, pos_part}
use air_sane.Text.{Bytes, codes, equal}
use air_sane.Sane.{SaneStatus, good, inval, no_docs, ok}
use air_sane.Sane.Session.{is_good}
use air_sane.Sane.Library.{
  Use, make_init, drop_init, enumerate, make_handle, Library, use_all, fresh_library, phase_after,
  off, phase_of, Holders, held_after,
}
use air_sane.Sane.Library.Counting.{use_all-IsBracketed}
use air_sane.OptionSet.{
  OptionUnit, no_unit, ValueType, int, string, Constraint, unconstrained, range, string_list,
  Descriptor, Device, Entry, OptionSet, register, find_option, put_option, init,
}
use air_sane.OptionSet.Words.{Numbers, set_numeric_value, numeric_value, word_of, unfixed}
use air_sane.OptionSet
use air_sane.OptionSet.Reloading.{HasOptions, Refreshes, init-reload-Refreshes}
use air_sane.OptionSet.Writing.{KeepsWords, set_numeric_value-Written}
use air_sane.Scanner.Resolutions.{discretize_resolutions}
use air_sane.Scanner.Resolutions.Steps.{Covers, discretize_resolutions-Covers}
use air_sane.Scanner.FreeNames.{
  stable_prefix, stable_name_at, published_name_at, generate_stable_unique_name,
  choose_unique_published_name,
}
use air_sane.Scanner.FreeNames.Choosing.{IsPrinter, IsFirstFree, choose_names-IsFirstFree}
use air_sane.Scanner.Init.Sources.{OptionNames, Arithmetic}

-- The resolution, the two words of the threshold, and the source.
pub record Values : Type 0 where
  pub resolution : ℤ
  pub low : ℤ
  pub high : ℤ
  pub source : Bytes

abbrev word_option : Bytes → ℕ → Constraint → Descriptor
word_option name size constraint = record {
  name = name;
  value_type = int;
  unit = no_unit;
  size = size;
  active = true;
  settable = true;
  constraint = constraint;
}

abbrev name_option : Bytes → List Bytes → Descriptor
name_option name values = record {
  name = name;
  value_type = string;
  unit = no_unit;
  size = 20;
  active = true;
  settable = true;
  constraint = string_list values;
}

abbrev descriptor_at : ℕ → Descriptor
descriptor_at i =
    if i == 1
    then word_option (codes "resolution") 4 (range (pos 50) (pos 700) (pos 100))
    else if i == 2
    then name_option (codes "mode") (codes "Gray" ∷ codes "Color" ∷ [])
    else if i == 3
    then name_option (codes "source") (codes "Flatbed" ∷ codes "ADF Duplex" ∷ [])
    else if i == 4
    then word_option (codes "threshold") 8 unconstrained
    else word_option [] 4 unconstrained

abbrev words_at : ℕ → Values → List ℤ
words_at i v =
    if i == 1 then v.resolution ∷ [] else if i == 4 then v.low ∷ v.high ∷ [] else pos 4 ∷ []

abbrev store_pair : List ℤ → Values → (SaneStatus × Bool) × Values
store_pair (x ∷ y ∷ []) v = ((good, true), record v { low = x; high = y })
store_pair _ v = ((inval, false), v)

abbrev store_words : ℕ → List ℤ → Values → (SaneStatus × Bool) × Values
store_words i words v = if i == 4 then store_pair words v else ((inval, false), v)

abbrev panel : Device
panel = record {
  World = Values;
  Pointer = ℕ;
  get_option_descriptor = λ i v. if leb i 4 then some i else none;
  descriptor = λ i v. descriptor_at i;
  get_words = λ i v. ((good, words_at i v), v);
  set_words = store_words;
  get_string = λ i v. ((good, v.source), v);
  set_string = λ i text v. ((good, true), record v { source = text });
}

abbrev natural : Numbers ℕ
natural = record {
  nan = 0;
  infinity = 1000000;
  minus_infinity = 0;
  of_word = pos_part;
  unfix = λ x. x / 65536;
  fix = λ x. pos (x * 65536);
  to_word = pos;
  lt = ltb;
  strtod_c = λ s. 0;
  dtostr_c = λ x. [];
}

abbrev whole : Arithmetic ℕ
whole = record {
  of_ℕ = λ x. x;
  mm_per_inch = 25;
  minus = ◌-◌;
  times = ◌*◌;
  over = ◌/◌;
  nearest = λ x. x;
  to_int = λ x. x % 10000;
}

abbrev names : OptionNames
names = record {
  resolution = codes "resolution";
  mode = codes "mode";
  source = codes "source";
  bit_depth = codes "depth";
  tl_x = codes "tl-x";
  tl_y = codes "tl-y";
  br_x = codes "br-x";
  br_y = codes "br-y";
}

abbrev start : Values
start = record { resolution = pos 300; low = pos 1; high = pos 2; source = codes "Flatbed" }

panel-HasOptions : (v : Values) → HasOptions panel v 4
panel-HasOptions v = record {
  within = λ i le none_there. ground arith;
  behind = λ i lt. ground arith;
}

abbrev no_options : OptionSet ℕ
no_options = record { has_device = true; options = [] }

init-reload-Refreshes_example :
    ((new : OptionSet ℕ) × (init panel 5 true start ≡ ok new)
      × (new.has_device ≡ true)
      × Refreshes panel start (λ _. none) (OptionSet.get panel new))
    × ((new : OptionSet ℕ) × (OptionSet.reload panel 5 no_options start ≡ ok new)
        × (new.has_device ≡ true)
        × Refreshes panel start (OptionSet.get panel no_options) (OptionSet.get panel new))
init-reload-Refreshes_example =
    init-reload-Refreshes panel start 5 4 no_options (panel-HasOptions start) (omega arith)

abbrev threshold : Entry ℕ
threshold = record { pointer = 4; index = 4 }

store_pair-kept :
    (words : List ℤ) (v : Values)
    → is_good ((store_pair words v).0).0 ≡ true
    → words_at 4 (store_pair words v).1 ≡ words
store_pair-kept [] v h = cc
store_pair-kept (x ∷ []) v h = cc
store_pair-kept (x ∷ y ∷ []) v h = refl
store_pair-kept (x ∷ y ∷ z ∷ words) v h = cc

threshold-KeepsWords : KeepsWords panel threshold
unfolding OptionSet.array_size
threshold-KeepsWords = record {
  kept = λ words v h. ground (arith, store_pair-kept words v h);
  filled = λ v h. refl;
  set_type = λ words v. refl;
  set_size = λ words v. refl;
  get_type = λ v. refl;
  get_size = λ v. refl;
}

-- The second word of the threshold is set to 7.
abbrev all_options : List (Bytes × Entry ℕ)
all_options = (codes "threshold", threshold) ∷ []

abbrev known : OptionSet ℕ
known = record { has_device = true; options = all_options }

abbrev after_seven : Values
after_seven = record { resolution = pos 300; low = pos 1; high = pos 7; source = codes "Flatbed" }

abbrev reread : List (Bytes × Entry ℕ)
reread =
    (codes "mode", record { pointer = 2; index = 2 })
    ∷ (codes "resolution", record { pointer = 1; index = 1 })
    ∷ (codes "source", record { pointer = 3; index = 3 })
    ∷ (codes "threshold", threshold)
    ∷ []

abbrev refreshed : OptionSet ℕ
refreshed = record { has_device = true; options = reread }

seven_is_set :
    set_numeric_value panel natural 9 (some threshold) 1 7 (known, start)
    ≡ ok (true, refreshed, after_seven)
unfolding set_numeric_value register find_option put_option OptionSet.reload
seven_is_set = refl

one_inside : 1 < OptionSet.array_size panel threshold start
unfolding OptionSet.array_size
one_inside = omega arith

-- An index behind the words is not written, and the answer is true.
behind_the_words :
    set_numeric_value panel natural 9 (some threshold) 2 7 (known, start) ≡ ok (true, known, start)
unfolding set_numeric_value
behind_the_words = refl

set_numeric_value-Written_example :
    ((numeric_value panel natural (some threshold) 1 (refreshed, after_seven)).0
      ≡ unfixed panel natural int (natural.of_word (word_of panel natural int 7)))
    × ((j : ℕ)
        → (1 == j) ≡ false
        → (numeric_value panel natural (some threshold) j (refreshed, after_seven)).0
          ≡ (numeric_value panel natural (some threshold) j (known, start)).0)
set_numeric_value-Written_example =
    set_numeric_value-Written panel natural threshold threshold-KeepsWords 9 1 7 known start
      refreshed after_seven one_inside seven_is_set

discretize_resolutions-Covers_example :
    (rest : List ℕ) × (discretize_resolutions 2000 50 700 100 ≡ ok (50 ∷ rest))
    × Covers 50 700 100 75 50 rest
discretize_resolutions-Covers_example =
    discretize_resolutions-Covers 2000 50 700 100 (omega arith) (omega arith)

discretized : discretize_resolutions 20 50 700 100 ≡ ok (50 ∷ 150 ∷ 250 ∷ 550 ∷ 650 ∷ [])
unfolding discretize_resolutions
discretized = refl

-- Numbers in strokes.
abbrev strokes : ℕ → Bytes
strokes zero = []
strokes (suc n) = b'i' ∷ strokes n

strokes-IsPrinter : IsPrinter strokes
unfolding equal
strokes-IsPrinter zero zero h = absurd (omega arith)
strokes-IsPrinter zero (suc k) h = refl
strokes-IsPrinter (suc j) zero h = absurd (omega arith)
strokes-IsPrinter (suc j) (suc k) h = strokes-IsPrinter j k (omega arith)

abbrev in_use : List Bytes
in_use = codes "net:A B:i" ∷ codes "A B" ∷ codes "net:A B:ii" ∷ []

choose_names-IsFirstFree_example :
    ((k : ℕ) × (generate_stable_unique_name strokes 4 (codes "net:x") (codes "A B") in_use
        ≡ ok (stable_name_at strokes (stable_prefix (codes "net:x") (codes "A B")) k))
      × (k ≤ 4)
      × IsFirstFree
          (stable_name_at strokes (stable_prefix (codes "net:x") (codes "A B")))
          1
          in_use
          k)
    × ((k : ℕ) × (choose_unique_published_name strokes 4 (codes "A B") in_use
          ≡ ok (published_name_at strokes (codes "A B") k))
        × (k ≤ 4)
        × IsFirstFree (published_name_at strokes (codes "A B")) 1 in_use k)
choose_names-IsFirstFree_example =
    choose_names-IsFirstFree strokes strokes-IsPrinter 4 (codes "net:x") (codes "A B") (codes "A B")
      in_use (omega arith)

names_are_free :
    (generate_stable_unique_name strokes 4 (codes "net:x") (codes "A B") in_use
      ≡ ok (codes "net:A B:iii"))
    × (choose_unique_published_name strokes 4 (codes "A B") in_use ≡ ok (codes "A B (ii)"))
unfolding generate_stable_unique_name choose_unique_published_name
names_are_free = (refl, refl)

-- Two handles, one of which could not be opened, and a list of devices in between.
abbrev uses : List Use
uses = make_init ∷ enumerate ∷ make_handle good ∷ make_handle no_docs ∷ drop_init ∷ []

abbrev one_handle : Holders
one_handle = record { inits = 0; handles = 1 }

uses_are_held : held_after uses (record { inits = 0; handles = 0 }) ≡ some one_handle
unfolding held_after
uses_are_held = refl

use_all-IsBracketed_example :
    (l : Library) × (use_all uses fresh_library ≡ ok l)
    × (l.refcount ≡ 1)
    × (phase_after off l.calls ≡ some (phase_of one_handle))
use_all-IsBracketed_example = use_all-IsBracketed uses one_handle uses_are_held
