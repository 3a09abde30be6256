-- ===== src/Scanner/FreeNames.antt =====
-- The loops that look for a name that is not in use: the stable name of a scanner
-- (server/scanner.cpp), and the name that it is published under (server/server.cpp). The output of
-- a number is the argument `show`.
pub mod Choosing
use air_sane.Prelude.{
  ℕ, zero, suc, ◌+◌, ◌≤◌, ◌<◌, ◌≡◌, refl, ap, sym, ◌∙◌, ◌||◌, Bool, true, false, List, [], ◌∷◌,
  ◌++◌, none, some, ◌==◌, ltb, if◌then◌else◌, length, arith, Bool-cases, inl, inr, Option-cases,
}
use air_sane.Text.{Bytes, codes, equal, equal_iff, find_byte, substr}
use air_sane.Sane.{Run, ok, out_of_fuel}

-- Whether one of the names is this one.
unfoldable pub is_taken : Bytes → List Bytes → Bool
unfolding equal
is_taken name [] = false
is_taken name (n ∷ names) = equal n name || is_taken name names

-- The first of the names `f i`, `f (i + 1)`, ... that is not taken.
unfoldable pub first_free : ℕ → (ℕ → Bytes) → ℕ → List Bytes → Run Bytes
unfolding is_taken
first_free zero f i names = out_of_fuel
first_free (suc fuel) f i names =
    let rest = first_free fuel f (i + 1) names in if is_taken (f i) names then rest else ok (f i)

-- What the stable name begins with: the name of the backend, and make and model.
unfoldable pub stable_prefix : Bytes → Bytes → Bytes
unfolding find_byte
stable_prefix name make_and_model =
    elim (find_byte b':' name) [ none ↦ name ++ b':' ∷ [] | some pos ↦ substr 0 (pos + 1) name ]
    ++ make_and_model
    ++ b':' ∷ []

module _ (show : ℕ → Bytes) where
  abbrev pub stable_name_at : Bytes → ℕ → Bytes
  stable_name_at prefix i = prefix ++ show i

  -- `others` are the stable names of the other instances.
  unfoldable pub generate_stable_unique_name : ℕ → Bytes → Bytes → List Bytes → Run Bytes
  unfolding first_free stable_prefix
  generate_stable_unique_name fuel name make_and_model others =
      first_free fuel (stable_name_at (stable_prefix name make_and_model)) 1 others

  abbrev pub published_name_at : Bytes → ℕ → Bytes
  published_name_at base i = base ++ (if i == 1 then [] else codes " (" ++ show i ++ codes ")")

  -- `published` are the names of the scanners that the server has.
  unfoldable pub choose_unique_published_name : ℕ → Bytes → List Bytes → Run Bytes
  unfolding first_free
  choose_unique_published_name fuel base published =
      first_free fuel (published_name_at base) 1 published
