-- ===== src/Scanner/Resolutions.antt =====
-- server/scanner.cpp: the list of resolutions that stands for a range (`roundToNearestStep`,
-- `discretizeResolutions`). Its arguments are of type int, and the doubles made of them are whole
-- numbers. A number below zero is written as 0: it is only compared with numbers that are not.
pub mod Rounding
pub mod Steps
use air_sane.Prelude.{
  ℕ, zero, suc, ◌+◌, ◌-◌, ◌*◌, ◌/◌, true, false, List, [], ◌∷◌, ltb, leb, if◌then◌else◌,
}
use air_sane.Sane.{Run, ok, out_of_fuel, ◌>>=◌}

unfoldable pub round_to_nearest_step : ℕ → ℕ → ℕ → ℕ
round_to_nearest_step value min step =
    if ltb value min
    then min - ((min - value + (step - 1)) / step) * step
    else min + ((value - min) / step) * step

-- `resolutions.push_back(x)` behind the last one, if `x` is greater.
abbrev pub push_greater : ℕ → ℕ → List ℕ → List ℕ
push_greater last x rest = if ltb last x then x ∷ rest else rest

-- The loop, from the resolution `r` on, and the push behind it. `last` is `resolutions.back()`,
-- the result is what follows it.
unfoldable pub add_resolutions : ℕ → ℕ → ℕ → ℕ → ℕ → ℕ → Run (List ℕ)
unfolding round_to_nearest_step
add_resolutions zero min max step r last = out_of_fuel
add_resolutions (suc fuel) min max step r last =
    let r2 = round_to_nearest_step r min step in
    elim (leb r2 max) [
      | true ↦ do
        rest ← add_resolutions fuel min max step (r * 2) (if ltb last r2 then r2 else last)
        ok (push_greater last r2 rest)
      | false ↦ ok (push_greater last (round_to_nearest_step max min step) [])
    ]

unfoldable pub discretize_resolutions : ℕ → ℕ → ℕ → ℕ → Run (List ℕ)
unfolding add_resolutions
discretize_resolutions fuel min max step = do
  rest ← add_resolutions fuel min max (if ltb step 1 then 1 else step) 75 min
  ok (min ∷ rest)
