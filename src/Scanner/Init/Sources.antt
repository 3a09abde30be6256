-- ===== src/Scanner/Init/Sources.antt =====
-- `InputSource::init` of server/scanner.cpp, and what `init2` does for each source. The names of the
-- options come from a header of SANE and are the parameter `OptionNames`, doubles are `Numbers`
-- and `Arithmetic`.
use air_sane.Prelude.{
  ℕ, ◌&&◌, Bool, true, not, [], List, Option, none, some, null, ltb, ◌==◌, if◌then◌else◌,
}
use air_sane.Text.{Bytes, codes}
use air_sane.Sane.{Run, ok, ◌>>=◌}
use air_sane.OptionSet.{
  Device, OptionUnit, no_unit, pixel, bit, mm, dpi, percent, microsecond, OptionSet,
}
use air_sane.OptionSet.Words.{Numbers}
use air_sane.OptionSet
use air_sane.OptionSet.Words
use air_sane.Scanner.Capabilities.{InputSource}

pub record OptionNames : Type 0 where
  pub resolution : Bytes
  pub mode : Bytes
  pub source : Bytes
  pub bit_depth : Bytes
  pub tl_x : Bytes
  pub tl_y : Bytes
  pub br_x : Bytes
  pub br_y : Bytes

-- `nearest x` is floor(x + 0.5), `to_int` the conversion to int, and `mm_per_inch` is 25.4.
pub record Arithmetic (D : Type 0) : Type 0 where
  pub of_ℕ : ℕ → D
  pub mm_per_inch : D
  pub minus : D → D → D
  pub times : D → D → D
  pub over : D → D → D
  pub nearest : D → D
  pub to_int : D → ℕ

abbrev pub unit_code : OptionUnit → ℕ
unit_code no_unit = 0
unit_code pixel = 1
unit_code bit = 2
unit_code mm = 3
unit_code dpi = 4
unit_code percent = 5
unit_code microsecond = 6

abbrev pub same_unit : OptionUnit → OptionUnit → Bool
same_unit u v = unit_code u == unit_code v

-- `mSourceName` and the other members of an `InputSource`.
pub record Source (D : Type 0) : Type 0 where
  pub source_name : Bytes
  pub area : InputSource D

-- What `init2` keeps from one source to the next.
pub record Progress (D : Type 0) : Type 0 where
  pub error : Option Bytes
  pub most_bits : ℕ
  pub widest : D
  pub highest : D

-- The options and the world of a device.
abbrev pub State : Device → Type 0
State device = OptionSet device.Pointer × device.World

module _ (device : Device) {D : Type 0} (n : Numbers D) (a : Arithmetic D)
    (names : OptionNames) where
  open device use {World}
  open a use {of_ℕ, mm_per_inch, minus, times, over, nearest, to_int}

  -- `std::max`.
  abbrev pub larger : D → D → D
  larger x y = if n.lt x y then y else x

  abbrev pub lowest : Bytes → State device → D
  lowest name (s, w) = Words.min device n (OptionSet.get device s name) w

  abbrev pub uppermost : Bytes → State device → D
  uppermost name (s, w) = Words.max device n (OptionSet.get device s name) w

  abbrev pub has_option : Bytes → State device → Bool
  has_option name (s, w) = not (OptionSet.is_null device (OptionSet.get device s name))

  abbrev pub unit_at : Bytes → State device → OptionUnit
  unit_at name (s, w) = OptionSet.unit_of device (OptionSet.get device s name) w

  -- The defaults, in mm.
  abbrev pub default_area : ℕ → InputSource D
  default_area bits = record {
    supported_intents = [];
    min_width = of_ℕ 0;
    max_width = of_ℕ 216;
    min_height = of_ℕ 0;
    max_height = of_ℕ 297;
    max_physical_width = of_ℕ 216;
    max_physical_height = of_ℕ 297;
    max_bits = bits;
  }

  abbrev pub has_area : State device → Bool
  has_area st =
      has_option names.tl_x st
      && has_option names.tl_y st
      && has_option names.br_x st
      && has_option names.br_y st

  abbrev pub is_consistent : State device → Bool
  is_consistent st =
      same_unit (unit_at names.tl_y st) (unit_at names.tl_x st)
      && same_unit (unit_at names.br_x st) (unit_at names.tl_x st)
      && same_unit (unit_at names.br_y st) (unit_at names.tl_x st)

  abbrev pub measured : State device → InputSource D → InputSource D
  measured st area = record area {
    min_width = larger (of_ℕ 0) (minus (lowest names.br_x st) (uppermost names.tl_x st));
    max_width = minus (uppermost names.br_x st) (lowest names.tl_x st);
    max_physical_width = uppermost names.br_x st;
    min_height = larger (of_ℕ 0) (minus (lowest names.br_y st) (uppermost names.tl_y st));
    max_height = minus (uppermost names.br_y st) (lowest names.tl_y st);
    max_physical_height = uppermost names.br_y st;
  }

  abbrev pub in_pixels : D → InputSource D → InputSource D
  in_pixels f area = record area {
    min_width = nearest (times area.min_width f);
    max_width = nearest (times area.max_width f);
    min_height = nearest (times area.min_height f);
    max_height = nearest (times area.max_height f);
    max_physical_width = nearest (times area.max_physical_width f);
    max_physical_height = nearest (times area.max_physical_height f);
  }

  -- The size in pixels at 300 dpi.
  unfoldable pub scale :
      OptionUnit → InputSource D → State device → (Option Bytes × InputSource D) × World
  scale mm area (s, w) = ((none, in_pixels (over (of_ℕ 300) mm_per_inch) area), w)
  scale pixel area (s, w) =
      let (x, w') =
        Words.numeric_value device n (OptionSet.get device s names.resolution) 0 (s, w) in
      ((none, in_pixels (over (of_ℕ 300) x) area), w')
  scale _ area (s, w) = ((some (codes "unexpected unit in scan area parameters"), area), w)

  unfoldable pub init_area : InputSource D → State device → (Option Bytes × InputSource D) × World
  unfolding scale
  init_area area (s, w) =
      if has_area (s, w)
      then (if is_consistent (s, w)
          then scale (unit_at names.tl_x (s, w)) (measured (s, w) area) (s, w)
          else ((some (codes "inconsistent unit in scan area parameters"), area), w))
      else scale mm area (s, w)

  -- `InputSource::init`.
  unfoldable pub init_source : State device → (Option Bytes × Source D) × World
  unfolding init_area
  init_source (s, w) =
      let (name, w') =
        OptionSet.string_value device (OptionSet.get device s names.source) 0 (s, w) in
      let bits =
        if has_option names.bit_depth (s, w')
        then to_int (uppermost names.bit_depth (s, w'))
        else 8 in
      let ((error, area), w'') = init_area (default_area bits) (s, w') in
      ((error, record { source_name = name; area = area }), w'')

  abbrev pub more : ℕ → ℕ → ℕ
  more x y = if ltb x y then y else x

  -- A source that could be read counts for the limits of the scanner.
  unfoldable pub take_source :
      List Bytes → Progress D → Option Bytes × Source D → Option (Source D) × Progress D
  take_source intents p (some error, found) = (some found, record p { error = some error })
  take_source intents p (none, found) = (
    some (record found { area = record found.area { supported_intents = intents } }),
    record {
      error = none;
      most_bits = more p.most_bits found.area.max_bits;
      widest = larger p.widest found.area.max_width;
      highest = larger p.highest found.area.max_height;
    },
  )

  -- What `init2` does for a source that the device has. `select` says whether the option is set.
  unfoldable pub read_source :
      ℕ
      → Bool
      → Bytes
      → List Bytes
      → Progress D
      → State device
      → Run ((Option (Source D) × Progress D) × State device)
  unfolding take_source init_source
  read_source fuel select name intents p (s, w) = do
    (done, s', w') ←
        if select
        then OptionSet.set_string_value device fuel (OptionSet.get device s names.source) 0 name
            (s, w)
        else ok (true, s, w)
    let (found, w'') = init_source (s', w')
    ok (take_source intents p found, (s', w''))

  -- The same, for a name that is empty if the device has no such source.
  unfoldable pub read_optional :
      ℕ
      → Bool
      → Bytes
      → List Bytes
      → Progress D
      → State device
      → Run ((Option (Source D) × Progress D) × State device)
  unfolding read_source
  read_optional fuel select name intents p st =
      if null name then ok ((none, p), st) else read_source fuel select name intents p st
