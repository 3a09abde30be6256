-- ===== src/OptionsFile.antt =====
-- server/optionsfile.cpp: the options of scanners that a file sets. The lines of the file,
-- `std::regex_match` and `atof` are parameters; `D` is the type of doubles. Opening the file and
-- the log are left out.
pub mod Choice
use air_sane.Prelude.{◌+◌, ◌||◌, Bool, true, false, ◌==◌, if◌then◌else◌, List, [], ◌∷◌, ◌++◌, null}
use air_sane.Text.{Bytes, codes, equal, starts_with}
use air_sane.AccessFile.Parsing.{first_word, skip_space, trim_end, is_comment}

abbrev pub RawOptions : Type 0
RawOptions = List (Bytes × Bytes)

-- `device_options` are the sections, each with its regular expression, the latest at the end.
pub record OptionsFile : Type 0 where
  pub file_name : Bytes
  pub global_options : RawOptions
  pub device_options : List (Bytes × RawOptions)

-- `pDeviceSection->push_back(option)`, where the pointer is to the last section.
unfoldable pub push_to_last : Bytes × Bytes → List (Bytes × RawOptions) → List (Bytes × RawOptions)
push_to_last option [] = []
push_to_last option ((device, options) ∷ []) = (device, options ++ option ∷ []) ∷ []
push_to_last option (section ∷ next ∷ sections) = section ∷ push_to_last option (next ∷ sections)

-- The name and the value of a line that begins with no white space.
unfoldable pub name_and_value : Bytes → Bytes × Bytes
unfolding first_word skip_space trim_end
name_and_value line = let (name, rest) = first_word line in (name, trim_end (skip_space rest))

-- A line that is no comment.
unfoldable pub add_option : Bytes × Bytes → OptionsFile → OptionsFile
unfolding push_to_last
add_option (name, value) f =
    if equal name (codes "device")
    then record f { device_options = f.device_options ++ (value, []) ∷ [] }
    else if null f.device_options
    then record f { global_options = f.global_options ++ (name, value) ∷ [] }
    else record f { device_options = push_to_last (name, value) f.device_options }

-- The loop of the constructor. The white space in front of a line, blank lines included, is
-- passed over by `file >> std::ws`.
unfoldable pub read_options : List Bytes → OptionsFile → OptionsFile
unfolding skip_space name_and_value add_option
read_options [] f = f
read_options (raw ∷ lines) f =
    let line = skip_space raw in
    if null line || is_comment line
    then read_options lines f
    else read_options lines (add_option (name_and_value line) f)

-- The part of a file name up to its last slash.
unfoldable pub path_of : Bytes → Bytes
path_of [] = []
path_of (c ∷ s) =
    let rest = path_of s in if null rest then (if c == b'/' then c ∷ [] else []) else c ∷ rest

pub record Options (D : Type 0) : Type 0 where
  pub icon : Bytes
  pub note : Bytes
  pub gray_gamma : D
  pub color_gamma : D
  pub synthesize_gray : Bool
  pub sane_options : RawOptions

-- Global options, and those of the sections that match the name or the make and model.
unfoldable pub matching_options :
    (Bytes → Bytes → Bool) → Bytes → Bytes → List (Bytes × RawOptions) → RawOptions
matching_options regex_match sane_name make_and_model [] = []
matching_options regex_match sane_name make_and_model ((device, options) ∷ sections) =
    let rest = matching_options regex_match sane_name make_and_model sections in
    if regex_match sane_name device || regex_match make_and_model device
    then options ++ rest
    else rest

abbrev pub default_options : {D : Type 0} → D → Options D
default_options one = record {
  icon = [];
  note = [];
  gray_gamma = one;
  color_gamma = one;
  synthesize_gray = false;
  sane_options = [];
}

-- An icon that is not an absolute path stands beside the file.
abbrev pub icon_of : Bytes → Bytes → Bytes
icon_of path value = if starts_with value (b'/' ∷ []) then value else path ++ value

abbrev pub is_truth : Bytes → Bool
is_truth value = equal value (codes "true") || equal value (codes "yes")

module _ {D : Type 0} (atof : Bytes → D) where
  unfoldable pub process_option : Bytes → Bytes × Bytes → Options D → Options D
  process_option path (name, value) o =
      if equal name (codes "icon")
      then record o { icon = icon_of path value }
      else if equal name (codes "note") || equal name (codes "location")
      then record o { note = value }
      else if equal name (codes "gray-gamma")
      then record o { gray_gamma = atof value }
      else if equal name (codes "color-gamma")
      then record o { color_gamma = atof value }
      else if equal name (codes "synthesize-gray")
      then record o { synthesize_gray = is_truth value }
      else record o { sane_options = o.sane_options ++ (name, value) ∷ [] }

  unfoldable pub process_options : Bytes → RawOptions → Options D → Options D
  unfolding process_option
  process_options path [] o = o
  process_options path (option ∷ options) o =
      process_options path options (process_option path option o)

  unfoldable pub scanner_options :
      D → (Bytes → Bytes → Bool) → OptionsFile → Bytes → Bytes → Options D
  unfolding matching_options process_options path_of
  scanner_options one regex_match f sane_name make_and_model =
      process_options (path_of f.file_name)
        (f.global_options ++ matching_options regex_match sane_name make_and_model f.device_options)
        (default_options one)
