-- ===== src/ScanJob/Setup.antt =====
-- `init`, `applyDeviceOptions` and `initGammaTable` of server/scanjob.cpp: a job set up from the
-- settings of a scan. Doubles are the parameter `Doubles`; the text of an element of the settings is
-- an argument. Members that no constructor writes come from a job that is given.
pub mod Choices
pub mod Tables
use air_sane.Prelude.{
  ℕ, zero, suc, ◌+◌, ◌-◌, ◌*◌, ◌/◌, ◌%◌, ◌^◌, ◌&&◌, ◌||◌, Bool, true, false, not, if◌then◌else◌,
  List, [], ◌∷◌, Option, none, some, null, leb,
}
use air_sane.Text.{Bytes, codes, equal}
use air_sane.OptionsFile.{Options}
use air_sane.Sane.{Run, ok, crash, ◌>>=◌}
use air_sane.ScanJob.{
  Job, State, aborted, pending, Kind, single, adf_single, adf_concat, Reason, job_queued,
  invalid_scan_ticket,
}

-- `nearest x` is floor(x + 0.5), `truncate` the conversion to int, `is_unit` the comparison with
-- 1.0f, and `curve gamma size i` the entry of a gamma table, as 16 bits. `atoi` is asked for digits
-- without a sign only; what it makes of a number that no int can hold is left open.
pub record Doubles (D : Type 0) : Type 0 where
  pub strtod : Bytes → D
  pub atoi : Bytes → ℕ
  pub is_nan : D → Bool
  pub equals : D → D → Bool
  pub nearest : D → D
  pub times : D → D → D
  pub over : D → D → D
  pub of_ℕ : ℕ → D
  pub truncate : D → ℕ
  pub is_unit : D → Bool
  pub curve : D → ℕ → ℕ → ℕ

-- What the scanner answers.
pub record Features (D : Type 0) : Type 0 where
  pub color_scan_mode_name : Bytes
  pub gray_scan_mode_name : Bytes
  pub has_platen : Bool
  pub platen_source_name : Bytes
  pub adf_simplex_source_name : Bytes
  pub adf_duplex_source_name : Bytes
  pub max_width_px : D
  pub max_height_px : D

pub record Setup (D : Type 0) : Type 0 where
  pub intent : Bytes
  pub res_dpi : ℕ
  pub left_px : D
  pub top_px : D
  pub width_px : D
  pub height_px : D
  pub color_mode : Bytes
  pub color_scan : Bool
  pub bit_depth : ℕ
  pub document_format : Bytes
  pub scan_source : Bytes
  pub duplex : Bool
  pub kind : Kind
  pub gamma_table : List ℕ
  pub state : State
  pub reason : Reason

unfoldable pub is_letter : ℕ → Bool
is_letter c = (leb 65 c && leb c 90) || (leb 97 c && leb c 122)

unfoldable pub is_digit : ℕ → Bool
is_digit c = leb 48 c && leb c 57

-- The letters in front of a text, and what follows.
unfoldable pub split_letters : Bytes → Bytes × Bytes
unfolding is_letter
split_letters [] = ([], [])
split_letters (c ∷ s) =
    let (letters, rest) = split_letters s in
    if is_letter c then (c ∷ letters, rest) else ([], c ∷ s)

unfoldable pub all_digits : Bytes → Bool
unfolding is_digit
all_digits [] = true
all_digits (c ∷ s) = is_digit c && all_digits s

abbrev pub match_parts : Bytes × Bytes → Option (Bytes × Bytes)
match_parts (letters, rest) =
    if null letters || null rest || not (all_digits rest) then none else some (letters, rest)

-- The match of "([A-Za-z]+)([0-9]+)".
unfoldable pub match_color_mode : Bytes → Option (Bytes × Bytes)
unfolding split_letters all_digits
match_color_mode text = match_parts (split_letters text)

pub data InputSource : Type 0 where
  platen feeder unknown_source : InputSource

module _ {D : Type 0} (f : Doubles D) (scanner : Features D) (get_string : Bytes → Bytes) where
  open f use {strtod, atoi, is_nan, equals, nearest, times, over, of_ℕ, truncate, is_unit, curve}

  abbrev pub get_number : Bytes → D
  get_number name = strtod (get_string name)

  abbrev pub or_default : D → D → D
  or_default x d = if is_nan x then d else x

  abbrev pub default_intent : Bytes
  default_intent =
      if null (get_string (codes "Intent")) then codes "Photo" else get_string (codes "Intent")

  -- The resolution in one direction is not that in the other.
  abbrev pub is_uneven : Bool
  is_uneven =
      not (is_nan (get_number (codes "XResolution")))
      && not (equals (get_number (codes "XResolution")) (get_number (codes "YResolution")))

  unfoldable pub init_region : Setup D → Setup D
  init_region j =
      let res = or_default (nearest (get_number (codes "XResolution"))) (of_ℕ 300) in
      let unit =
        if equal (get_string (codes "ContentRegionUnits")) (codes "escl:ThreeHundredthsOfInches")
        then over res (of_ℕ 300)
        else of_ℕ 1 in
      record j {
        left_px = times (or_default (get_number (codes "XOffset")) (of_ℕ 0)) unit;
        top_px = times (or_default (get_number (codes "YOffset")) (of_ℕ 0)) unit;
        width_px = or_default (times (get_number (codes "Width")) unit) scanner.max_width_px;
        height_px = or_default (times (get_number (codes "Height")) unit) scanner.max_height_px;
        res_dpi = truncate res;
      }

  -- What a match of the pattern gives.
  unfoldable pub take_color : Option (Bytes × Bytes) → Setup D → Setup D
  take_color none j = j
  take_color (some (letters, digits)) j =
      let bpp = atoi digits in
      if equal letters (codes "RGB")
      then record j {
        color_mode = scanner.color_scan_mode_name;
        color_scan = true;
        bit_depth = bpp / 3;
      }
      else if equal letters (codes "Grayscale")
      then record j {
        color_mode = scanner.gray_scan_mode_name;
        color_scan = false;
        bit_depth = bpp;
      }
      else j

  unfoldable pub requested_color : Setup D → Setup D
  unfolding match_color_mode take_color
  requested_color j =
      take_color (match_color_mode (get_string (codes "ColorMode")))
        (record j { bit_depth = 0; color_mode = [] })

  unfoldable pub init_color : Setup D → Setup D
  unfolding requested_color
  init_color j =
      let j' = requested_color j in
      if null j'.color_mode
      then record j' {
        color_mode =
            if equal j'.intent (codes "Photo")
            then scanner.color_scan_mode_name
            else scanner.gray_scan_mode_name;
        bit_depth = 8;
      }
      else j'

  -- The format that is asked for, or that goes with the intent.
  unfoldable pub requested_format : Bytes → Bytes
  requested_format intent =
      let first = get_string (codes "DocumentFormat") in
      let format = if null first then get_string (codes "DocumentFormatExt") else first in
      if not (null format)
      then format
      else if equal intent (codes "Document") || equal intent (codes "Text")
      then codes "application/pdf"
      else if equal intent (codes "Photo")
      then codes "image/jpeg"
      else []

  unfoldable pub init_format : Bool → Setup D → Setup D
  unfolding requested_format
  init_format autoselect j = record j {
    document_format =
        let format = requested_format j.intent in
        if null format || autoselect then codes "image/png" else format;
  }

  unfoldable pub input_source : InputSource
  input_source =
      let text = get_string (codes "InputSource") in
      if null text
      then (if scanner.has_platen then platen else feeder)
      else if equal text (codes "Platen")
      then platen
      else if equal text (codes "Feeder")
      then feeder
      else unknown_source

  unfoldable pub init_source : InputSource → Setup D → Setup D
  init_source platen j = record j { scan_source = scanner.platen_source_name; kind = single }
  init_source feeder j =
      let both = equals (get_number (codes "Duplex")) (of_ℕ 1) in
      record j {
        duplex = both;
        scan_source =
            if both then scanner.adf_duplex_source_name else scanner.adf_simplex_source_name;
        kind =
            if equals (get_number (codes "ConcatIfPossible")) (of_ℕ 1)
              && equal j.document_format (codes "application/pdf")
            then adf_concat
            else adf_single;
      }
  init_source unknown_source j = j

  -- Entries for the numbers from `i` on.
  abbrev pub curve_from : D → ℕ → ℕ → ℕ → List ℕ
  curve_from gamma size i zero = []
  curve_from gamma size i (suc n) = curve gamma size i ∷ curve_from gamma size (i + 1) n

  -- `int size = 1L << mBitDepth`, where the shift is one of 64 bits: what the int keeps of it.
  abbrev pub table_size : ℕ → ℕ
  table_size bits = 2 ^ bits % 4294967296

  -- A shift by 64 bits or more is undefined, and `resize` throws for a size that is negative, which
  -- nothing catches.
  unfoldable pub init_gamma_table : D → ℕ → Run (List ℕ)
  init_gamma_table gamma bits =
      if is_unit gamma
      then ok []
      else if leb 64 bits || leb 2147483648 (table_size bits)
      then crash
      else ok (curve_from gamma (table_size bits) 0 (table_size bits))

  unfoldable pub apply_device_options : Options D → Setup D → Run (Setup D)
  unfolding init_gamma_table
  apply_device_options o j = do
    table ← init_gamma_table (if j.color_scan then o.color_gamma else o.gray_gamma) j.bit_depth
    ok (record j {
      gamma_table = table;
      color_mode =
          if j.color_scan
          then j.color_mode
          else if o.synthesize_gray
          then scanner.color_scan_mode_name
          else scanner.gray_scan_mode_name;
    })

  unfoldable pub finish_init : Bool → Setup D → Setup D
  finish_init failed j =
      if failed
      then record j { state = aborted; reason = invalid_scan_ticket }
      else record j { state = pending; reason = job_queued }

  abbrev pub is_unknown : InputSource → Bool
  is_unknown unknown_source = true
  is_unknown _ = false

  unfoldable pub init : Bool → Options D → Setup D → Run (Setup D)
  unfolding init_region init_color init_format init_source input_source apply_device_options
      finish_init
  init autoselect o j =
      let settings =
        init_format autoselect (init_color (init_region (record j { intent = default_intent }))) in
      let sourced = init_source input_source settings in
      apply_device_options o sourced >>= λ j'.
      ok (finish_init (is_uneven || is_unknown input_source) j')

  -- What the job takes from there. `store` keeps what `openSession` writes to the device.
  unfoldable pub init_job :
      {Settings : Type 0} (store : Setup D → Settings)
      → Bool
      → Options D
      → Setup D
      → Job Settings
      → Run (Job Settings)
  unfolding init
  init_job store autoselect o blank j = do
    q ← init autoselect o blank
    ok (record j {
      document_format = q.document_format;
      bit_depth = q.bit_depth;
      res_dpi = q.res_dpi;
      color_scan = q.color_scan;
      kind = q.kind;
      state = q.state;
      reason = q.reason;
      images_completed = 0;
      synthesize_gray = o.synthesize_gray;
      gamma_table = q.gamma_table;
      settings = store q;
    })
