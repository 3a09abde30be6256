-- ===== src/Scanner/Names.antt =====
-- server/scanner.cpp: the names of the sources and modes that a scanner offers.
use air_sane.Prelude.{◌&&◌, Bool, true, false, List, [], ◌∷◌, Option, none, some, if◌then◌else◌}
use air_sane.Text.{Bytes, codes, equal, find}

-- The first name that passes a test.
unfoldable pub find_if : (Bytes → Bool) → List Bytes → Option Bytes
find_if ok [] = none
find_if ok (n ∷ names) = if ok n then some n else find_if ok names

-- The first test that a name passes decides.
unfoldable pub first_of : List (Bytes → Bool) → List Bytes → Bytes
unfolding find_if
first_of [] names = []
first_of (ok ∷ tests) names = elim (find_if ok names) [ some n ↦ n | none ↦ first_of tests names ]

-- `i->find(part) != npos`.
unfoldable pub holds_part : Bytes → Bytes → Bool
unfolding find
holds_part part n = elim (find part n) [ none ↦ false | some _ ↦ true ]

unfoldable pub is_name : Bytes → Bytes → Bool
unfolding equal
is_name wanted n = equal n wanted

abbrev pub flatbed_tests : List (Bytes → Bool)
flatbed_tests =
    is_name (codes "Flatbed")
    ∷ is_name (codes "FlatBed")
    ∷ is_name (codes "Platen")
    ∷ is_name (codes "Auto")
    ∷ is_name (codes "Normal")
    ∷ []

unfoldable pub find_flatbed_name : List Bytes → Bytes
find_flatbed_name = first_of flatbed_tests

abbrev pub adf_simplex_tests : List (Bytes → Bool)
adf_simplex_tests =
    is_name (codes "Automatic Document Feeder")
    ∷ is_name (codes "ADF Simplex")
    ∷ is_name (codes "ADF Front")
    ∷ is_name (codes "ADF")
    ∷ holds_part (codes "Automatic Document Feeder")
    ∷ []

unfoldable pub find_adf_simplex_name : List Bytes → Bytes
find_adf_simplex_name = first_of adf_simplex_tests

abbrev pub adf_duplex_tests : List (Bytes → Bool)
adf_duplex_tests =
    is_name (codes "ADF Duplex")
    ∷ (λ n. holds_part (codes "Automatic Document Feeder") n && holds_part (codes "Duplex") n)
    ∷ []

unfoldable pub find_adf_duplex_name : List Bytes → Bytes
find_adf_duplex_name = first_of adf_duplex_tests

abbrev pub gray_tests : List (Bytes → Bool)
gray_tests = is_name (codes "True Gray") ∷ is_name (codes "Gray") ∷ holds_part (codes "Gray") ∷ []

unfoldable pub find_gray_name : List Bytes → Bytes
find_gray_name = first_of gray_tests

abbrev pub color_tests : List (Bytes → Bool)
color_tests = is_name (codes "Color") ∷ holds_part (codes "Color") ∷ []

unfoldable pub find_color_name : List Bytes → Bytes
find_color_name = first_of color_tests
