-- ===== src/Scanner/Resolutions/Rounding.antt =====
-- Numbers rounded down to a step of a range, and the end of the loop over the resolutions.
use native.Mathlib.Nat.{le-div_iff_mul-le, one-le-pow}
use air_sane.Prelude.{
  ℕ, zero, suc, ◌+◌, ◌-◌, ◌*◌, ◌/◌, ◌^◌, ◌≤◌, ◌<◌, ◌≡◌, refl, ◌⊎◌, inl, inr, true, List, [], ◌∷◌,
  ltb, leb, if◌then◌else◌, arith, Bool-cases,
}
use air_sane.Sane.{ok}
use air_sane.Scanner.Resolutions.{round_to_nearest_step, push_greater, add_resolutions}

pub le_double : (r j : ℕ) → r ≤ r * 2 ^ j
le_double r j = grind (arith, one-le-pow j 2 (omega arith))

abbrev pub Holds : ℕ → List ℕ → Type 0
Holds x [] = ⊥
Holds x (y ∷ ys) = (x ≡ y) ⊎ Holds x ys

-- Each number is greater than the one before it.
abbrev pub Ascends : ℕ → List ℕ → Type 0
Ascends last [] = Unit
Ascends last (x ∷ xs) = (last < x) × Ascends x xs

pub div_mono : (a b s : ℕ) → 0 < s → a ≤ b → a / s ≤ b / s
div_mono a b s h le = grind arith

-- From the minimum on, a number is rounded down by less than a step, to a number of steps.
pub round_bounds :
    (v min step : ℕ)
    → 0 < step
    → min ≤ v
    → (min ≤ round_to_nearest_step v min step)
      × (round_to_nearest_step v min step ≤ v)
      × (v < round_to_nearest_step v min step + step)
unfolding round_to_nearest_step
round_bounds v min step h le = grind arith

pub round_from :
    (v min step : ℕ) → min ≤ v → round_to_nearest_step v min step ≡ min + ((v - min) / step) * step
unfolding round_to_nearest_step
round_from v min step le = ground arith

pub mul_mono : (a b s : ℕ) → a ≤ b → a * s ≤ b * s
mul_mono a b s le = grind arith

pub round_mono :
    (v v' min step : ℕ)
    → 0 < step
    → min ≤ v
    → v ≤ v'
    → round_to_nearest_step v min step ≤ round_to_nearest_step v' min step
round_mono v v' min step h le more =
    let quotients = div_mono (v - min) (v' - min) step h (omega arith) in
    omega (
      arith,
      round_from v min step le,
      round_from v' min step (omega arith),
      mul_mono ((v - min) / step) ((v' - min) / step) step quotients,
    )

-- A resolution of the range: a number of steps above the minimum, and not above the maximum.
abbrev pub IsStep : ℕ → ℕ → ℕ → ℕ → Type 0
IsStep min max step x = ((k : ℕ) × (x ≡ min + k * step)) × (x ≤ max)

pub round-IsStep :
    (v min max step : ℕ)
    → min ≤ v
    → round_to_nearest_step v min step ≤ max
    → IsStep min max step (round_to_nearest_step v min step)
round-IsStep v min max step le within = (((v - min) / step, round_from v min step le), within)

-- While the loop goes on, the resolution has not passed the maximum by a step.
pub le_of_more :
    (min max step r : ℕ)
    → 0 < step
    → leb (round_to_nearest_step r min step) max ≡ true
    → r ≤ min + max + step
le_of_more min max step r h more = elim (Bool-cases (ltb r min)) [
  | inl below ↦ ground (arith, below)
  | inr above ↦ ground (arith, more, above, round_bounds r min step h)
]

pub add_resolutions-ends :
    (fuel min max step r last : ℕ)
    → 0 < step
    → 0 < r
    → 0 < fuel
    → min + max + step + 1 < fuel + r
    → (rest : List ℕ) × (add_resolutions fuel min max step r last ≡ ok rest)
unfolding add_resolutions
add_resolutions-ends zero min max step r last h positive some_left f = absurd (omega arith)
add_resolutions-ends (suc fuel) min max step r last h positive some_left f =
    let r2 = round_to_nearest_step r min step in
    elim (Bool-cases (leb r2 max)) [
      | inl more ↦
          let low = le_of_more min max step r h more in
          let (rest, e) =
            add_resolutions-ends fuel min max step (r * 2) (if ltb last r2 then r2 else last) h
              (omega arith) (omega (arith, low)) (omega (arith, low)) in
          (push_greater last r2 rest, rw (more, add_resolutions) (rw e refl))
      | inr past ↦ (
        push_greater last (round_to_nearest_step max min step) [],
        rw (past, add_resolutions) refl,
      )
    ]

-- No number of steps above the minimum that is not above the maximum is greater than the maximum
-- rounded down.
pub IsStep-le-round :
    (min max step x : ℕ) → 0 < step → IsStep min max step x → x ≤ round_to_nearest_step max min step
IsStep-le-round min max step x h ((k, e), le) =
    let whole : min + k * step ≤ max = omega (arith, e) in
    let steps : k ≤ (max - min) / step = (le-div_iff_mul-le h).1 (omega (arith, whole)) in
    omega
      (arith, e, round_from max min step (omega arith), mul_mono k ((max - min) / step) step steps)
