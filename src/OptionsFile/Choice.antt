-- ===== src/OptionsFile/Choice.antt =====
-- Which value each option of a scanner takes (server/optionsfile.cpp).
use air_sane.Prelude.{◌||◌, Bool, true, false, if◌then◌else◌, [], ◌∷◌, ◌++◌, Option, none, some}
use air_sane.Text.{Bytes, codes, equal}
use air_sane.OptionsFile.{RawOptions, OptionsFile, Options, icon_of, is_truth}

abbrev later : Option Bytes → Bool → Bytes → Option Bytes
later (some v) b value = some v
later none true value = some value
later none false value = none

-- The value behind the last of the names that pass a test.
abbrev pub last_of : (Bytes → Bool) → RawOptions → Option Bytes
last_of p [] = none
last_of p ((name, value) ∷ options) = later (last_of p options) (p name) value

abbrev value_of {ℓ} : {A : Type ℓ} → (Bytes → A) → A → Option Bytes → A
value_of f a none = a
value_of f a (some value) = f value

abbrev pub pick {ℓ} : {A : Type ℓ} → (Bytes → Bool) → (Bytes → A) → A → RawOptions → A
pick p f a options = value_of f a (last_of p options)

abbrev pub is_note : Bytes → Bool
is_note name = equal name (codes "note") || equal name (codes "location")

-- A name that the file does not keep to itself.
abbrev pub is_known : Bytes → Bool
is_known name =
    equal name (codes "icon")
    || is_note name
    || equal name (codes "gray-gamma")
    || equal name (codes "color-gamma")
    || equal name (codes "synthesize-gray")

abbrev pub others : RawOptions → RawOptions
others [] = []
others ((name, value) ∷ options) =
    let rest = others options in if is_known name then rest else (name, value) ∷ rest

module _ {D : Type 0} (atof : Bytes → D) where
  -- Each option by itself: the last value counts, and what has no meaning here goes to SANE.
  abbrev pub chosen : Bytes → RawOptions → Options D → Options D
  chosen path options o = record {
    icon = pick (λ n. equal n (codes "icon")) (icon_of path) o.icon options;
    note = pick is_note (λ v. v) o.note options;
    gray_gamma = pick (λ n. equal n (codes "gray-gamma")) atof o.gray_gamma options;
    color_gamma = pick (λ n. equal n (codes "color-gamma")) atof o.color_gamma options;
    synthesize_gray =
        pick (λ n. equal n (codes "synthesize-gray")) is_truth o.synthesize_gray options;
    sane_options = o.sane_options ++ others options;
  }

  -- One option, as it changes each field.
  abbrev taken : Bytes → Bytes → Bytes → Options D → Options D
  taken path name value o = record {
    icon = if equal name (codes "icon") then icon_of path value else o.icon;
    note = if is_note name then value else o.note;
    gray_gamma = if equal name (codes "gray-gamma") then atof value else o.gray_gamma;
    color_gamma = if equal name (codes "color-gamma") then atof value else o.color_gamma;
    synthesize_gray =
        if equal name (codes "synthesize-gray") then is_truth value else o.synthesize_gray;
    sane_options = if is_known name then o.sane_options else o.sane_options ++ (name, value) ∷ [];
  }
