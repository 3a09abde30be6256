-- ===== src/Scanner/Init/Choices.antt =====
-- The lists of modes, sources and resolutions that a scanner offers.
use air_sane.Prelude.{
  ℕ, ◌+◌, ◌<◌, ◌≡◌, refl, inl, inr, ◌&&◌, ◌||◌, true, false, not, List, [], ◌∷◌, map, null, ltb,
  if◌then◌else◌, arith, Bool-cases,
}
use air_sane.Text.{Bytes, codes, equal}
use air_sane.Sane.{ok}
use air_sane.Scanner.FreeNames.{is_taken}
use air_sane.Scanner.Resolutions.{discretize_resolutions}
use air_sane.Scanner.Resolutions.Rounding.{add_resolutions-ends}
use air_sane.Scanner.Init.{
  Modes, read_modes, color_spaces_of, SourceNames, read_source_names, input_sources_of,
}

pub spaces-of :
    (m : Modes)
    → null m.gray_name && null m.color_name ≡ false
    → (null (color_spaces_of m) ≡ false)
      × (is_taken (codes "grayscale") (color_spaces_of m) ≡ not (null m.gray_name))
      × (is_taken (codes "color") (color_spaces_of m) ≡ not (null m.color_name))
unfolding color_spaces_of is_taken equal
spaces-of m some_name = elim (Bool-cases (null m.gray_name)) [
  | inl no_gray ↦ elim (Bool-cases (null m.color_name)) [
    | inl no_color ↦ absurd (ground (arith, no_gray, no_color, some_name))
    | inr color ↦ rw (no_gray, color) (refl, refl, refl)
  ]
  | inr gray ↦ elim (Bool-cases (null m.color_name)) [
    | inl no_color ↦ rw (gray, no_color) (refl, refl, refl)
    | inr color ↦ rw (gray, color) (refl, refl, refl)
  ]
]

pub read_modes-named :
    (given : List Bytes)
    → null (read_modes given).gray_name && null (read_modes given).color_name ≡ false
unfolding read_modes
read_modes-named given = ground arith

pub sources-of :
    (given : List Bytes)
    → (not (null (read_source_names given).flatbed)
          || not (null (read_source_names given).simplex)
          || not (null (read_source_names given).duplex)
        ≡ true)
unfolding read_source_names
sources-of given = ground arith

pub input_sources-of :
    (s : SourceNames)
    → (is_taken (codes "Platen") (input_sources_of s) ≡ not (null s.flatbed))
      × (is_taken (codes "Feeder") (input_sources_of s)
          ≡ not (null s.simplex) || not (null s.duplex))
unfolding input_sources_of is_taken equal
input_sources-of s = elim (Bool-cases (null s.flatbed)) [
  | inl no_flatbed ↦ elim (Bool-cases (not (null s.simplex) || not (null s.duplex))) [
    | inl fed ↦ rw (no_flatbed, fed) (refl, refl)
    | inr unfed ↦ rw (no_flatbed, unfed) (refl, refl)
  ]
  | inr flat ↦ elim (Bool-cases (not (null s.simplex) || not (null s.duplex))) [
    | inl fed ↦ rw (flat, fed) (refl, refl)
    | inr unfed ↦ rw (flat, unfed) (refl, refl)
  ]
]

pub null-map : {A B : Type 0} (f : A → B) (xs : List A) → null xs ≡ false → null (map f xs) ≡ false
null-map f [] h = cc
null-map f (x ∷ xs) h = refl

pub discretize_resolutions-Returns :
    (fuel min max step : ℕ)
    → min + max + step + 2 < fuel
    → (list : List ℕ) × (discretize_resolutions fuel min max step ≡ ok list) × (null list ≡ false)
unfolding discretize_resolutions
discretize_resolutions-Returns fuel min max step f =
    let (rest, e) =
      add_resolutions-ends fuel min max (if ltb step 1 then 1 else step) 75 min (ground arith)
        (omega arith) (omega arith) (ground arith) in
    (min ∷ rest, rw e refl, refl)
