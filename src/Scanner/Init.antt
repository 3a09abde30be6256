-- ===== src/Scanner/Init.antt =====
-- `init`, `init2` and `initWithOptions` of server/scanner.cpp: what a scanner learns from the options of
-- its device.
pub mod Sources
pub mod Units
pub mod Choices
pub mod Ready
use air_sane.Prelude.{
  ℕ, ◌+◌, ◌&&◌, ◌||◌, Bool, true, false, not, [], ◌∷◌, ◌++◌, List, map, Option, none, some, null,
  ltb, ◌==◌, if◌then◌else◌,
}
use air_sane.Text.{Bytes, codes, equal}
use air_sane.Sane.{Run, ok, ◌>>=◌}
use air_sane.OptionsFile.{Options, RawOptions}
use air_sane.OptionSet.{Device, OptionSet, Entry}
use air_sane.OptionSet.Words.{Numbers}
use air_sane.OptionSet
use air_sane.OptionSet.Words
use air_sane.Scanner.FreeNames.{generate_stable_unique_name, is_taken}
use air_sane.Scanner.Names.{
  find_flatbed_name, find_adf_simplex_name, find_adf_duplex_name, find_gray_name, find_color_name,
}
use air_sane.Scanner.Resolutions.{discretize_resolutions}
use air_sane.Scanner.Init.Sources.{OptionNames, Arithmetic, Source, Progress, State, read_optional}

-- `device_info`.
pub record DeviceInfo : Type 0 where
  pub name : Bytes
  pub vendor : Bytes
  pub model : Bytes

-- What `init` sets.
pub record Identity : Type 0 where
  pub make_and_model : Bytes
  pub published_name : Bytes
  pub stable_unique_name : Bytes
  pub uuid : Bytes

-- `uuid_of` is `Uuid(name).toString()`, `others` the stable names of the other instances.
unfoldable pub init_identity :
    (ℕ → Bytes) → (Bytes → Bytes) → ℕ → List Bytes → DeviceInfo → Run Identity
unfolding generate_stable_unique_name
init_identity show uuid_of fuel others info = do
  let make_and_model = info.vendor ++ codes " " ++ info.model
  stable ← generate_stable_unique_name show fuel info.name make_and_model others
  ok (record {
    make_and_model = make_and_model;
    published_name = make_and_model;
    stable_unique_name = stable;
    uuid = uuid_of stable;
  })

-- The names of the scan modes, and the color spaces and modes that go with them.
pub record Modes : Type 0 where
  pub gray_name : Bytes
  pub color_name : Bytes

abbrev pub given_modes : List Bytes → List Bytes
given_modes modes = if null modes then codes "Gray" ∷ codes "Color" ∷ [] else modes

unfoldable pub read_modes : List Bytes → Modes
unfolding find_gray_name find_color_name
read_modes modes =
    let gray = find_gray_name (given_modes modes) in
    let color = find_color_name (given_modes modes) in
    record {
      gray_name = if null gray && null color then codes "Gray" else gray;
      color_name = color;
    }

-- `push_back` of a text if a name is there.
abbrev pub if_named : Bytes → Bytes → List Bytes
if_named name text = if null name then [] else text ∷ []

unfoldable pub color_spaces_of : Modes → List Bytes
color_spaces_of m =
    if_named m.gray_name (codes "grayscale") ++ if_named m.color_name (codes "color")

-- The modes with 8 bits, and behind them those with 16 bits.
unfoldable pub color_modes_of : Modes → ℕ → List Bytes
unfolding is_taken
color_modes_of m bits =
    let modes =
      if_named m.gray_name (codes "Grayscale8") ++ if_named m.color_name (codes "RGB24") in
    let deep = λ (mode : Bytes) (deeper : Bytes).
      if bits == 16 && is_taken mode modes then deeper ∷ [] else [] in
    modes ++ deep (codes "Grayscale8") (codes "Grayscale16") ++ deep (codes "RGB24") (codes "RGB48")

-- The names of the sources. "-" stands for the only source of a device that names none.
pub record SourceNames : Type 0 where
  pub flatbed : Bytes
  pub simplex : Bytes
  pub duplex : Bytes

unfoldable pub read_source_names : List Bytes → SourceNames
unfolding find_flatbed_name find_adf_simplex_name find_adf_duplex_name
read_source_names sources =
    let flatbed = find_flatbed_name sources in
    let simplex = find_adf_simplex_name sources in
    let duplex = find_adf_duplex_name sources in
    record {
      flatbed = if null simplex && null duplex && null flatbed then codes "-" else flatbed;
      simplex = simplex;
      duplex = duplex;
    }

unfoldable pub input_sources_of : SourceNames → List Bytes
input_sources_of s =
    if_named s.flatbed (codes "Platen")
    ++ (if not (null s.simplex) || not (null s.duplex) then codes "Feeder" ∷ [] else [])

abbrev pub platen_intents : List Bytes
platen_intents = codes "Preview" ∷ codes "TextAndGraphic" ∷ codes "Photo" ∷ []

abbrev pub adf_intents : List Bytes
adf_intents = codes "TextAndGraphic" ∷ codes "Photo" ∷ []

-- The members that `init2` sets, behind those of the options file.
pub record Readout (D : Type 0) : Type 0 where
  pub error : Option Bytes
  pub min_res_dpi : ℕ
  pub max_res_dpi : ℕ
  pub res_step_dpi : ℕ
  pub discrete_resolutions : List D
  pub document_formats : List Bytes
  pub modes : Modes
  pub txt_color_spaces : List Bytes
  pub color_modes : List Bytes
  pub input_sources : List Bytes
  pub platen : Option (Source D)
  pub adf_simplex : Option (Source D)
  pub adf_duplex : Option (Source D)
  pub max_width : D
  pub max_height : D

-- The result of `init2`: an early return, or the members.
pub data Outcome (D : Type 0) : Type 0 where
  failed : Bytes → Outcome D
  read : Readout D → Outcome D

module _ (device : Device) {D : Type 0} (n : Numbers D) (a : Arithmetic D)
    (names : OptionNames) where
  open device use {World}
  open a use {of_ℕ, to_int}

  -- An option of the options file. One that the device does not have is passed over, and a write
  -- that is refused is not noticed.
  unfoldable pub apply_sane_option : ℕ → Bytes × Bytes → State device → Run (State device)
  apply_sane_option fuel (name, value) (s, w) = elim (OptionSet.get device s name) [
    | none ↦ ok (s, w)
    | some e ↦ do
      (done, s', w') ← Words.set_value device n fuel (some e) 0 value (s, w)
      ok (s', w')
  ]

  unfoldable pub apply_sane_options : ℕ → RawOptions → State device → Run (State device)
  unfolding apply_sane_option
  apply_sane_options fuel [] st = ok st
  apply_sane_options fuel (option ∷ options) st =
      apply_sane_option fuel option st >>= apply_sane_options fuel options

  -- Resolutions that the device names, or those that stand for its range.
  unfoldable pub read_resolutions : ℕ → List D → ℕ → ℕ → ℕ → Run (List D)
  unfolding discretize_resolutions
  read_resolutions fuel given min max step =
      if null given
      then (do list ← discretize_resolutions fuel min max step; ok (map of_ℕ list))
      else ok given

  -- The part of `init2` behind the resolutions.
  unfoldable pub read_device :
      ℕ → ℕ → ℕ → ℕ → List D → State device → Run (Readout D × State device)
  unfolding read_modes color_spaces_of color_modes_of read_source_names input_sources_of
      read_optional
  read_device fuel min max step resolutions (s, w) = do
    let m =
        read_modes (OptionSet.allowed_string_values device (OptionSet.get device s names.mode) w)
    let sources =
        read_source_names
          (OptionSet.allowed_string_values device (OptionSet.get device s names.source) w)
    let start : Progress D = record {
      error = none;
      most_bits = 8;
      widest = of_ℕ 0;
      highest = of_ℕ 0;
    }
    ((platen, p), st) ←
        read_optional device n a names fuel (not (equal sources.flatbed (codes "-")))
          sources.flatbed platen_intents start (s, w)
    ((simplex, p'), st') ← read_optional device n a names fuel true sources.simplex adf_intents p st
    ((duplex, p''), st'') ←
        read_optional device n a names fuel true sources.duplex adf_intents p' st'
    ok (
      record {
        error = p''.error;
        min_res_dpi = min;
        max_res_dpi = max;
        res_step_dpi = step;
        discrete_resolutions = resolutions;
        document_formats = codes "application/pdf" ∷ codes "image/jpeg" ∷ codes "image/png" ∷ [];
        modes = m;
        txt_color_spaces = color_spaces_of m;
        color_modes = color_modes_of m p''.most_bits;
        input_sources = input_sources_of sources;
        platen = platen;
        adf_simplex = simplex;
        adf_duplex = duplex;
        max_width = p''.widest;
        max_height = p''.highest;
      },
      st'',
    )

  -- From the resolution option on.
  unfoldable pub read_options : ℕ → ℕ → State device → Run (Outcome D × World)
  unfolding read_resolutions read_device
  read_options fuel rounds (s, w) = elim (OptionSet.get device s names.resolution) [
    | none ↦ ok (failed (codes "missing SANE parameter: " ++ names.resolution), w)
    | some e ↦ do
      let min = to_int (Words.min device n (some e) w)
      let max = to_int (Words.max device n (some e) w)
      let step = to_int (Words.quant device n (some e) w)
      list ← read_resolutions rounds (Words.allowed_numeric_values device n (some e) w) min max step
      (r, (s', w')) ← read_device fuel min max step list (s, w)
      ok (read r, w')
  ]

  -- `init2`, for a device that could be opened or not, and the options of the options file.
  unfoldable pub init2 : ℕ → ℕ → Bool → Options D → World → Run (Outcome D × World)
  unfolding apply_sane_options read_options
  init2 fuel rounds opened o w =
      if opened
      then (do
        s ← OptionSet.init device fuel true w
        st ← apply_sane_options fuel o.sane_options (s, w)
        read_options fuel rounds st)
      else ok (failed (codes "failed to open device"), w)

  -- `mError` behind `initWithOptions`, which answers whether it is null.
  unfoldable pub error_of : Outcome D → Option Bytes
  error_of (failed error) = some error
  error_of (read r) = r.error
