-- ===== src/Scanner/FreeNames/Choosing.antt =====
-- The loops that look for a free name find the first one, and end.
use mathlib.Core.List.{append_cancel_left, append_cancel_right}
use air_sane.Prelude.{
  ℕ, zero, suc, ◌+◌, ◌≤◌, ◌<◌, ◌≡◌, refl, sym, ◌∙◌, true, false, List, [], ◌∷◌, ◌++◌, ◌==◌,
  if◌then◌else◌, length, arith, Bool-cases, inl, inr,
}
use air_sane.Text.{Bytes, codes, equal, equal_iff}
use air_sane.Sane.{ok}
use air_sane.Scanner.FreeNames.{
  is_taken, first_free, stable_prefix, stable_name_at, generate_stable_unique_name,
  published_name_at, choose_unique_published_name,
}

abbrev pub remove : Bytes → List Bytes → List Bytes
remove name [] = []
remove name (n ∷ names) = if equal n name then names else n ∷ remove name names

is_taken-nil : (name : Bytes) → is_taken name [] ≡ false
unfolding is_taken
is_taken-nil name = refl

length-remove :
    (name : Bytes) (names : List Bytes)
    → is_taken name names ≡ true
    → length (remove name names) + 1 ≡ length names
unfolding is_taken
length-remove name [] h = cc
length-remove name (n ∷ names) h = elim (Bool-cases (equal n name)) [
  | inl same ↦ ground (arith, same)
  | inr other ↦ ground (arith, other, h, length-remove name names)
]

is_taken-remove :
    (name other : Bytes) (names : List Bytes)
    → equal name other ≡ false
    → is_taken other (remove name names) ≡ is_taken other names
unfolding is_taken
is_taken-remove name other [] differs = refl
is_taken-remove name other (n ∷ names) differs = ground (
  arith,
  differs,
  equal_iff n name,
  equal_iff name other,
  equal_iff n other,
  is_taken-remove name other names differs,
)

-- The names `f i`, `f (i + 1)`, ... differ.
abbrev pub Differ : (ℕ → Bytes) → ℕ → Type 0
Differ f i = (j k : ℕ) → i ≤ j → j < k → equal (f j) (f k) ≡ false

-- Among more names than are taken, some name is free.
some_free :
    (n i : ℕ) (f : ℕ → Bytes) (names : List Bytes)
    → Differ f i
    → length names ≤ n
    → (j : ℕ) × (i ≤ j) × (j ≤ i + n) × (is_taken (f j) names ≡ false)
some_free zero i f [] differ le = (i, omega arith, omega arith, is_taken-nil (f i))
some_free zero i f (n ∷ names) differ le = absurd (omega arith)
some_free (suc n) i f names differ le = elim (Bool-cases (is_taken (f i) names)) [
  | inr free ↦ (i, omega arith, omega arith, free)
  | inl taken ↦
      let fewer = length-remove (f i) names taken in
      let (j, from, to, free) =
        some_free n (i + 1) f (remove (f i) names) (λ j k least lt. differ j k (omega arith) lt)
          (omega (arith, fewer)) in
      (
        j,
        omega arith,
        omega arith,
        sym (is_taken-remove (f i) (f j) names (differ i j (omega arith) (omega arith))) ∙ free,
      )
]

-- The name that is found: it is free, and each one before it is taken.
abbrev pub IsFirstFree : (ℕ → Bytes) → ℕ → List Bytes → ℕ → Type 0
IsFirstFree f i names k =
    (i ≤ k)
    × (is_taken (f k) names ≡ false)
    × ((m : ℕ) → i ≤ m → m < k → is_taken (f m) names ≡ true)

not_here :
    (i j : ℕ) (f : ℕ → Bytes) (names : List Bytes)
    → is_taken (f i) names ≡ true
    → is_taken (f j) names ≡ false
    → i ≤ j
    → i < j
not_here i j f names taken free from = elim (Bool-cases (i == j)) [
  | inl same ↦ absurd (ground (arith, same, taken, free))
  | inr other ↦ ground (arith, other)
]

taken_below :
    (i m k : ℕ) (f : ℕ → Bytes) (names : List Bytes)
    → is_taken (f i) names ≡ true
    → (i + 1 ≤ m → m < k → is_taken (f m) names ≡ true)
    → i ≤ m
    → m < k
    → is_taken (f m) names ≡ true
taken_below i m k f names taken before least lt = elim (Bool-cases (i == m)) [
  | inl same ↦ let e : i ≡ m = ground (arith, same) in rw (← e) taken
  | inr other ↦ before (ground (arith, other)) lt
]

first_free-finds :
    (fuel i j : ℕ) (f : ℕ → Bytes) (names : List Bytes)
    → i ≤ j
    → j < i + fuel
    → is_taken (f j) names ≡ false
    → (k : ℕ) × (first_free fuel f i names ≡ ok (f k)) × (k ≤ j) × IsFirstFree f i names k
unfolding first_free
first_free-finds zero i j f names from to free = absurd (omega arith)
first_free-finds (suc fuel) i j f names from to free = elim (Bool-cases (is_taken (f i) names)) [
  | inr now ↦
      (i, rw (now, first_free) refl, from, (omega arith, now, λ m least lt. absurd (omega arith)))
  | inl taken ↦
      let later : i < j = not_here i j f names taken free from in
      let (k, e, le, (least, open_name, before)) =
        first_free-finds fuel (i + 1) j f names (omega arith) (omega arith) free in
      (
        k,
        rw (taken, first_free) e,
        le,
        (
          omega arith,
          open_name,
          λ m least' lt. taken_below i m k f names taken (before m) least' lt,
        ),
      )
]

-- With more fuel than there are names, a free name is found.
first_free-IsFirstFree :
    (fuel : ℕ) (f : ℕ → Bytes) (names : List Bytes)
    → Differ f 1
    → length names < fuel
    → (k : ℕ) × (first_free fuel f 1 names ≡ ok (f k))
      × (k ≤ length names + 1)
      × IsFirstFree f 1 names k
first_free-IsFirstFree fuel f names differ le =
    let (j, from, to, free) = some_free (length names) 1 f names differ (omega arith) in
    let (k, e, below, found) = first_free-finds fuel 1 j f names from (omega arith) free in
    (k, e, omega arith, found)

-- Different numbers are printed differently.
abbrev pub IsPrinter : (ℕ → Bytes) → Type 0
IsPrinter show = (j k : ℕ) → j < k → equal (show j) (show k) ≡ false

module _ (show : ℕ → Bytes) (printer : IsPrinter show) where
  differ_of_ne : (a b : Bytes) (j k : ℕ) → (a ≡ b → show j ≡ show k) → j < k → equal a b ≡ false
  differ_of_ne a b j k same lt = elim (Bool-cases (equal a b)) [
    | inr other ↦ other
    | inl e ↦ absurd (
        ground
          (arith, printer j k lt, (equal_iff (show j) (show k)).1 (same ((equal_iff a b).0 e))))
  ]

  stable_name_at-Differ : (prefix : Bytes) → Differ (stable_name_at show prefix) 1
  stable_name_at-Differ prefix j k least lt =
      differ_of_ne (stable_name_at show prefix j) (stable_name_at show prefix k) j k
        (append_cancel_left prefix (show j) (show k)) lt

  in_brackets : (s t : Bytes) → codes " (" ++ s ++ codes ")" ≡ codes " (" ++ t ++ codes ")" → s ≡ t
  in_brackets s t e = append_cancel_right s t (codes ")") (ground (arith, e))

  published_name_at-Differ : (base : Bytes) → Differ (published_name_at show base) 1
  published_name_at-Differ base j k least lt =
      let last : (k == 1) ≡ false = ground (arith, least, lt) in
      elim (Bool-cases (j == 1)) [
        | inl first ↦
            differ_of_ne (published_name_at show base j) (published_name_at show base k) j k
              (λ e. absurd (
                ground (
                  arith,
                  append_cancel_left base [] (codes " (" ++ show k ++ codes ")")
                      (rw (first, last) at e),
                )))
              lt
        | inr later ↦
            differ_of_ne (published_name_at show base j) (published_name_at show base k) j k
              (λ e. in_brackets (show j) (show k) (
                append_cancel_left base (codes " (" ++ show j ++ codes ")")
                  (codes " (" ++ show k ++ codes ")") (rw (later, last) at e)))
              lt
      ]

  -- With more fuel than there are names in use, and numbers that are printed differently if they
  -- differ, the search for a stable name and that for a published name return the first of their
  -- candidates that is not in use, which is one of the first as many as there are names and one
  -- more.
  pub choose_names-IsFirstFree :
      (fuel : ℕ) (name make_and_model base : Bytes) (names : List Bytes)
      → length names < fuel
      → ((k : ℕ) × (generate_stable_unique_name show fuel name make_and_model names
            ≡ ok (stable_name_at show (stable_prefix name make_and_model) k))
          × (k ≤ length names + 1)
          × IsFirstFree (stable_name_at show (stable_prefix name make_and_model)) 1 names k)
        × ((k : ℕ) × (choose_unique_published_name show fuel base names
              ≡ ok (published_name_at show base k))
            × (k ≤ length names + 1)
            × IsFirstFree (published_name_at show base) 1 names k)
  unfolding generate_stable_unique_name choose_unique_published_name
  choose_names-IsFirstFree fuel name make_and_model base names le = (
    first_free-IsFirstFree fuel (stable_name_at show (stable_prefix name make_and_model)) names
        (stable_name_at-Differ (stable_prefix name make_and_model)) le,
    first_free-IsFirstFree fuel (published_name_at show base) names (published_name_at-Differ base)
        le,
  )
