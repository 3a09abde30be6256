-- ===== src/Scanner/Resolutions/Steps.antt =====
-- The resolutions that stand for a range: the loop ends, and what the list holds.
use mathlib.Core.Path.{subst}
use native.Mathlib.Nat.{pow-succ', pow-zero, mul_assoc}
use air_sane.Prelude.{
  ℕ, zero, suc, ◌+◌, ◌*◌, ◌^◌, ◌≤◌, ◌<◌, ◌≡◌, refl, inl, inr, true, List, [], ◌∷◌, All, ltb, leb,
  if◌then◌else◌, arith, Bool-cases,
}
use air_sane.Scanner.Resolutions.Rounding.{
  le_double, round_bounds, round_mono, round-IsStep, add_resolutions-ends, IsStep-le-round, Holds,
  Ascends, IsStep,
}
use air_sane.Sane.{ok, >>=-eq-ok}
use air_sane.Scanner.Resolutions.{
  round_to_nearest_step, push_greater, add_resolutions, discretize_resolutions,
}

-- The list behind `last`: it ascends in steps of the range, and has the numbers that the loop
-- comes by from `r` on, and the maximum, rounded down.
abbrev pub Covers : ℕ → ℕ → ℕ → ℕ → ℕ → List ℕ → Type 0
Covers min max step r last rest =
    Ascends last rest
    × All (IsStep min max step) rest
    × Holds (round_to_nearest_step max min step) (last ∷ rest)
    × ((j : ℕ)
        → min ≤ r * 2 ^ j
        → round_to_nearest_step (r * 2 ^ j) min step ≤ max
        → Holds (round_to_nearest_step (r * 2 ^ j) min step) (last ∷ rest))

double_pow : (r j : ℕ) → r * 2 * 2 ^ j ≡ r * 2 ^ suc j
double_pow r j = rw (pow-succ' 2 j) (mul_assoc r 2 (2 ^ j))

-- What holds at a number and from its double on, holds from the number on.
from_double :
    (P : ℕ → Type 0) (r : ℕ) → P r → ((j : ℕ) → P (r * 2 * 2 ^ j)) → (j : ℕ) → P (r * 2 ^ j)
from_double P r now later zero = let e : r ≡ r * 2 ^ 0 = omega (arith, pow-zero 2) in subst P e now
from_double P r now later (suc j) = subst P (double_pow r j) (later j)

abbrev pub Found : ℕ → ℕ → ℕ → List ℕ → ℕ → Type 0
Found min max step list v =
    min ≤ v → round_to_nearest_step v min step ≤ max → Holds (round_to_nearest_step v min step) list

Covers-push :
    (min max step r last : ℕ) (rest : List ℕ)
    → IsStep min max step (round_to_nearest_step r min step)
    → last < round_to_nearest_step r min step
    → Covers min max step (r * 2) (round_to_nearest_step r min step) rest
    → Covers min max step r last (round_to_nearest_step r min step ∷ rest)
Covers-push min max step r last rest is_step greater (ascends, steps, top, doubled) =
    let list = last ∷ round_to_nearest_step r min step ∷ rest in
    (
      (greater, ascends),
      (is_step, steps),
      inr top,
      from_double (Found min max step list) r (λ above within. inr (inl refl))
          (λ j above within. inr (doubled j above within)),
    )

Covers-keep :
    (min max step r last : ℕ) (rest : List ℕ)
    → (min ≤ r → round_to_nearest_step r min step ≡ last)
    → Covers min max step (r * 2) last rest
    → Covers min max step r last rest
Covers-keep min max step r last rest known (ascends, steps, top, doubled) = (
  ascends,
  steps,
  top,
  from_double (Found min max step (last ∷ rest)) r (λ above within. inl (known above)) doubled,
)

-- The end of the loop: the numbers from `r` on are past the maximum.
Covers-end :
    (min max step r last : ℕ)
    → 0 < step
    → min ≤ max
    → IsStep min max step last
    → max < round_to_nearest_step r min step
    → min ≤ r
    → Covers min max step r last (push_greater last (round_to_nearest_step max min step) [])
Covers-end min max step r last h some_range is_step past above =
    let top = round_bounds max min step h some_range in
    let below = IsStep-le-round min max step last h is_step in
    let beyond : (j : ℕ) (list : List ℕ) → Found min max step list (r * 2 ^ j) =
      λ j list above' within.
        absurd (
          omega (arith, past, round_mono r (r * 2 ^ j) min step h above (le_double r j), within)) in
    elim (Bool-cases (ltb last (round_to_nearest_step max min step))) [
      | inl greater ↦ rw greater (
        (ground (arith, greater), tt),
        (round-IsStep max min max step some_range (omega (arith, top)), tt),
        inr (inl refl),
        λ j. beyond j (last ∷ round_to_nearest_step max min step ∷ []),
      )
      | inr same ↦ rw same (tt, tt, inl (ground (arith, same, below)), λ j. beyond j (last ∷ []))
    ]

-- Only a number from the minimum on is rounded to more than it.
le_of_greater :
    (r min step last : ℕ)
    → min ≤ last
    → ltb last (round_to_nearest_step r min step) ≡ true
    → min ≤ r
unfolding round_to_nearest_step
le_of_greater r min step last least greater = ground arith

add_resolutions-Covers :
    (fuel min max step r last : ℕ) (rest : List ℕ)
    → 0 < step
    → min ≤ max
    → min ≤ last
    → IsStep min max step last
    → ((v : ℕ) → min ≤ v → r ≤ v → last ≤ round_to_nearest_step v min step)
    → add_resolutions fuel min max step r last ≡ ok rest
    → Covers min max step r last rest
unfolding add_resolutions
add_resolutions-Covers zero min max step r last rest h range least is_step behind e = cc
add_resolutions-Covers (suc fuel) min max step r last rest h range least is_step behind e =
    let r2 = round_to_nearest_step r min step in
    elim (Bool-cases (leb r2 max)) [
      | inl more ↦
          let (tail, looped, same) =
            >>=-eq-ok (add_resolutions fuel min max step (r * 2) (if ltb last r2 then r2 else last))
              _ (rw (more, add_resolutions) at e) in
          let made : rest ≡ push_greater last r2 tail = cc in
          elim (Bool-cases (ltb last r2)) [
            | inl greater ↦
                let above = le_of_greater r min step last least greater in
                let grid = round-IsStep r min max step above (ground (arith, more)) in
                rw (made, greater)
                  (Covers-push min max step r last tail grid (ground (arith, greater)) (
                    add_resolutions-Covers fuel min max step (r * 2) r2 tail h range
                      (round_bounds r min step h above).0 grid
                      (λ v least' le. round_mono r v min step h above (omega arith))
                      (rw greater at looped)))
            | inr known ↦
                rw (made, known)
                  (Covers-keep min max step r last tail
                    (λ above. ground (arith, known, behind r above (omega arith)))
                    (add_resolutions-Covers fuel min max step (r * 2) last tail h range least
                      is_step (λ v least' le. behind v least' (omega arith)) (rw known at looped)))
          ]
      | inr past ↦
          let made : rest ≡ push_greater last (round_to_nearest_step max min step) [] =
            ground (arith, rw (past, add_resolutions) at e) in
          rw made (
            Covers-end min max step r last h range is_step (ground (arith, past))
              (le_of_greater r min step max range (ground (arith, past))))
    ]

-- For a range that is not empty and fuel greater than its minimum, maximum and step together,
-- discretizeResolutions returns the minimum and behind it an ascending list of numbers that are
-- whole steps above it and not above the maximum; the maximum, rounded down, is one of them, and
-- so is 75 times each power of two that is not below the minimum, rounded down, if that is not
-- above the maximum.
pub discretize_resolutions-Covers :
    (fuel min max step : ℕ)
    → min ≤ max
    → min + max + step < fuel
    → (rest : List ℕ) × (discretize_resolutions fuel min max step ≡ ok (min ∷ rest))
      × Covers min max (if ltb step 1 then 1 else step) 75 min rest
unfolding discretize_resolutions
discretize_resolutions-Covers fuel min max step range f =
    let s = if ltb step 1 then 1 else step in
    let positive : 0 < s = ground arith in
    let (rest, e) =
      add_resolutions-ends fuel min max s 75 min positive (omega arith) (omega arith)
        (ground arith) in
    (
      rest,
      rw e refl,
      add_resolutions-Covers fuel min max s 75 min rest positive range (omega arith)
          ((0, omega arith), range) (λ v least le. (round_bounds v min s positive least).0) e,
    )
