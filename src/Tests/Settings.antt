-- ===== src/Tests/Settings.antt =====
-- A job that is set up from the settings of a scan: server/scanjob.cpp.
use air_sane.Prelude.{
  ℕ, ◌+◌, ◌-◌, ◌&&◌, Bool, ◌*◌, ◌/◌, ◌%◌, ◌≡◌, refl, true, false, ◌==◌, if◌then◌else◌, List, [],
  ◌∷◌, zero, suc,
}
use air_sane.Text.{Bytes, codes, equal}
use air_sane.Sane.{Run, ok, crash, out_of_fuel}
use air_sane.OptionsFile.{default_options}
use air_sane.ScanJob.{pending, single, none_given}
use air_sane.ScanJob.Setup.{
  Doubles, Features, Setup, match_color_mode, all_digits, init, init_region, init_color,
  requested_color, init_format, requested_format, init_source, input_source, apply_device_options,
  init_gamma_table, finish_init,
}
use air_sane.Scanner.Capabilities.{Output, color_mode, color_modes, all_color_modes}
use air_sane.Scanner.Capabilities.ColorModes.{requested_color-color_mode}
use air_sane.ScanJob.Pixels.{Floats, synthesize_gray, gray_bytes}

abbrev number_of : ℕ → Bytes → ℕ
number_of n [] = n
number_of n (c ∷ s) = number_of (n * 10 + (c - b'0')) s

-- Whole numbers; the text of a number is its length, and no text is not a number.
abbrev whole : Doubles ℕ
whole = record {
  strtod = λ s. (if equal s [] then 999 else if equal s (codes "one") then 1 else 5);
  atoi = number_of 0;
  is_nan = λ n. n == 999;
  equals = λ m n. m == n;
  nearest = λ n. n;
  times = λ m n. m * n;
  over = λ m n. m / n;
  of_ℕ = λ n. n;
  truncate = λ n. n;
  is_unit = λ n. n == 1;
  curve = λ gamma size i. i;
}

abbrev with_feeder : Features ℕ
with_feeder = record {
  color_scan_mode_name = codes "Color";
  gray_scan_mode_name = codes "Gray";
  has_platen = true;
  platen_source_name = codes "Flatbed";
  adf_simplex_source_name = codes "ADF";
  adf_duplex_source_name = codes "ADF Duplex";
  max_width_px = 2550;
  max_height_px = 3300;
}

-- The settings of a document in color from both sides.
abbrev wanted : Bytes → Bytes
wanted name =
    if equal name (codes "InputSource")
    then codes "Feeder"
    else if equal name (codes "ColorMode")
    then codes "RGB24"
    else if equal name (codes "DocumentFormat")
    then codes "application/pdf"
    else if equal name (codes "ConcatIfPossible")
    then codes "one"
    else if equal name (codes "Duplex")
    then codes "one"
    else []

abbrev unset : Setup ℕ
unset = record {
  intent = [];
  res_dpi = 0;
  left_px = 0;
  top_px = 0;
  width_px = 0;
  height_px = 0;
  color_mode = [];
  color_scan = false;
  bit_depth = 0;
  document_format = [];
  scan_source = [];
  duplex = false;
  kind = single;
  gamma_table = [];
  state = pending;
  reason = none_given;
}

-- What a test asks of a job that has been set up.
abbrev is_wanted : Run (Setup ℕ) → Bool
is_wanted (ok j) = j.bit_depth == 8 && equal j.scan_source (codes "ADF Duplex")
is_wanted crash = false
is_wanted out_of_fuel = false

wanted-init : is_wanted (init whole with_feeder wanted false (default_options 1) unset) ≡ true
unfolding init init_region init_color requested_color match_color_mode init_format requested_format
    init_source input_source apply_device_options init_gamma_table finish_init equal
wanted-init = refl

-- Samples of 31 bits, as a client may ask for.
too_deep :
    init whole with_feeder
      (λ name. if equal name (codes "ColorMode") then codes "Grayscale31" else wanted name)
      false
      (default_options 2)
      unset
    ≡ crash
unfolding init init_region init_color requested_color match_color_mode init_format requested_format
    init_source input_source apply_device_options init_gamma_table finish_init equal
too_deep = refl

abbrev zero_to : ℕ → ℕ → List ℕ
zero_to i zero = []
zero_to i (suc n) = i ∷ zero_to (i + 1) n

abbrev sums : ℕ → Floats
sums next = record { gray = λ bits r g b. r + g + b; behind = λ i. next }

-- From a pixel that is not whole, what stands behind the buffer gets into the line.
reads_behind : (n : ℕ) → synthesize_gray (sums n) 8 (1 ∷ 2 ∷ []) ≡ (3 + n) ∷ 2 ∷ []
unfolding synthesize_gray gray_bytes
reads_behind n = refl

-- Numbers in two digits.
abbrev two_digits : Output ℕ
two_digits = record {
  show = λ n. (48 + n / 10 % 10) ∷ (48 + n % 10) ∷ [];
  show_double = λ n. codes "1";
}

-- The settings of a scan in the mode that the capabilities name for eight bits.
abbrev in_color : Bytes → Bytes
in_color name = color_mode two_digits (codes "color") 8

requested_color-color_mode_example :
    ((requested_color whole with_feeder in_color unset).bit_depth ≡ 8)
    × ((requested_color whole with_feeder in_color unset).color_scan ≡ true)
    × ((requested_color whole with_feeder in_color unset).color_mode ≡ codes "Color")
unfolding all_digits
requested_color-color_mode_example =
    requested_color-color_mode whole with_feeder in_color two_digits true 8 unset
      (record { some_digits = refl; only_digits = refl; value = refl }) refl

-- Two depths for sixteen bits.
depths :
    all_color_modes two_digits (codes "grayscale" ∷ []) 16
    ≡ codes
        "<scan:ColorMode>Grayscale08</scan:ColorMode>\r\n<scan:ColorMode>Grayscale16</scan:ColorMode>\r\n"
unfolding all_color_modes color_modes color_mode equal
depths = refl
