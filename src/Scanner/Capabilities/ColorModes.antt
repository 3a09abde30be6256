-- ===== src/Scanner/Capabilities/ColorModes.antt =====
-- A color mode that a scanner names is the one that a job is set up for (server/scanner.cpp,
-- server/scanjob.cpp).
use air_sane.Prelude.{
  ℕ, ◌*◌, ◌/◌, ◌≡◌, refl, ap, ◌∙◌, Bool, true, false, if◌then◌else◌, [], ◌∷◌, ◌++◌, some, null,
  arith,
}
use air_sane.Text.{Bytes, codes, equal}
use air_sane.ScanJob.Setup.{
  Doubles, Features, Setup, is_letter, is_digit, split_letters, all_digits, match_color_mode,
  match_parts, take_color, requested_color,
}
use air_sane.Scanner.Capabilities.{Output, color_mode}

-- A number is printed as digits, and `atoi` reads it back.
pub record IsDecimal (show : ℕ → Bytes) (atoi : Bytes → ℕ) (n : ℕ) : Type 0 where
  pub some_digits : null (show n) ≡ false
  pub only_digits : all_digits (show n) ≡ true
  pub value : atoi (show n) ≡ n

-- Digits have no letters in front.
split_letters-digits : (s : Bytes) → all_digits s ≡ true → split_letters s ≡ ([], s)
unfolding split_letters all_digits is_digit is_letter
split_letters-digits [] h = refl
split_letters-digits (c ∷ s) h = ground arith

split_letters-color :
    (s : Bytes)
    → all_digits s ≡ true
    → (split_letters (codes "RGB" ++ s) ≡ (codes "RGB", s))
      × (split_letters (codes "Grayscale" ++ s) ≡ (codes "Grayscale", s))
unfolding split_letters is_letter
split_letters-color s h = let e = split_letters-digits s h in (rw e refl, rw e refl)

match_color_mode-name :
    (show : ℕ → Bytes) (n : ℕ)
    → null (show n) ≡ false
    → all_digits (show n) ≡ true
    → (match_color_mode (codes "RGB" ++ show n) ≡ some (codes "RGB", show n))
      × (match_color_mode (codes "Grayscale" ++ show n) ≡ some (codes "Grayscale", show n))
unfolding match_color_mode
match_color_mode-name show n some_digits only_digits =
    let (rgb, gray) = split_letters-color (show n) only_digits in
    (
      ap match_parts rgb ∙ rw (some_digits, only_digits) refl,
      ap match_parts gray ∙ rw (some_digits, only_digits) refl,
    )

-- The two color spaces that have modes.
abbrev pub space_name : Bool → Bytes
space_name true = codes "color"
space_name false = codes "grayscale"

module _ {D : Type 0} (f : Doubles D) (scanner : Features D) (get_string : Bytes → Bytes)
    (output : Output D) where
  -- A job whose settings ask for a color mode as the capabilities document names it, in color or
  -- in gray, is set up to scan so, with the number of bits that the name stands for, if the
  -- digits of that name are printed so that atoi reads them back.
  pub requested_color-color_mode :
      (is_color : Bool) (bits : ℕ) (j : Setup D)
      → IsDecimal output.show f.atoi (if is_color then 3 * bits else bits)
      → get_string (codes "ColorMode") ≡ color_mode output (space_name is_color) bits
      → ((requested_color f scanner get_string j).bit_depth ≡ bits)
        × ((requested_color f scanner get_string j).color_scan ≡ is_color)
        × ((requested_color f scanner get_string j).color_mode
            ≡ (if is_color then scanner.color_scan_mode_name else scanner.gray_scan_mode_name))
  unfolding requested_color color_mode equal take_color
  requested_color-color_mode true bits j d asked =
      let q : Setup D = record j { bit_depth = 0; color_mode = [] } in
      let third : 3 * bits / 3 ≡ bits = omega arith in
      let read = (match_color_mode-name output.show (3 * bits) d.some_digits d.only_digits).0 in
      let taken : requested_color f scanner get_string j
          ≡ take_color f scanner get_string (some (codes "RGB", output.show (3 * bits))) q =
        ap (λ t. take_color f scanner get_string (match_color_mode t) q) asked
        ∙ ap (λ m. take_color f scanner get_string m q) read in
      (
        ap (λ s. s.bit_depth) taken ∙ ap (λ n. n / 3) d.value ∙ third,
        ap (λ s. s.color_scan) taken,
        ap (λ s. s.color_mode) taken,
      )
  requested_color-color_mode false bits j d asked =
      let q : Setup D = record j { bit_depth = 0; color_mode = [] } in
      let read = (match_color_mode-name output.show bits d.some_digits d.only_digits).1 in
      let taken : requested_color f scanner get_string j
          ≡ take_color f scanner get_string (some (codes "Grayscale", output.show bits)) q =
        ap (λ t. take_color f scanner get_string (match_color_mode t) q) asked
        ∙ ap (λ m. take_color f scanner get_string m q) read in
      (
        ap (λ s. s.bit_depth) taken ∙ d.value,
        ap (λ s. s.color_scan) taken,
        ap (λ s. s.color_mode) taken,
      )
