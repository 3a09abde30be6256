-- ===== src/ImageEncoder/Position.antt =====
-- Where the encoder stands after a number of lines, whatever the subclass does with them.
use air_sane.Prelude.{
  ℕ, ◌+◌, ◌-◌, ◌*◌, ◌<◌, ◌≡◌, refl, List, [], ◌∷◌, arith, length, inl, inr, true, false, Bool,
  Bool-cases, ◌==◌,
}
use air_sane.Prelude.Int.{pos}
use air_sane.Text.{Bytes}
use air_sane.ImageEncoder.{
  ImageEncoder, Hooks, Outcome, done, thrown, ◌>>=◌, call_if, advance, write_line, write_lines,
  lines_left_in_current_image,
}

-- The encoder stands at line `e.current_line` of `rows`.
pub record IsAt (rows : ℕ) (e : ImageEncoder) : Type 0 where
  pub rows_are : e.height ≡ pos rows
  pub inside : e.current_line < rows

advance-IsAt :
    (rows : ℕ) (e : ImageEncoder)
    → IsAt rows e
    → IsAt rows (advance e)
      × ((advance e).current_image * rows + (advance e).current_line
          ≡ e.current_image * rows + e.current_line + 1)
unfolding advance
advance-IsAt rows e at = elim (Bool-cases (e.current_line + 1 == rows)) [
  | inl last ↦ rw (at.rows_are, advance) (rw last (grind arith))
  | inr more ↦ rw (at.rows_are, advance) (rw more (grind arith))
]

>>=-eq-done {ℓ} :
    {A : Type ℓ} (first : Outcome A) (next : A → Outcome A) {last : A}
    → (first >>= next) ≡ done last
    → (x : A) × (first ≡ done x) × (next x ≡ done last)
>>=-eq-done (thrown x) next e = cc
>>=-eq-done (done x) next e = (x, refl, e)

module _ {S : Type 0} where
  call_if-keeps :
      (b : Bool) (f : ImageEncoder → S → Outcome S) (x : ImageEncoder × S) {y : ImageEncoder × S}
      → call_if b f x ≡ done y
      → y.0 ≡ x.0
  call_if-keeps true f (e, s) h = ground arith
  call_if-keeps false f (e, s) h = ground arith

module _ {S : Type 0} (h : Hooks S) where
  -- A line that is written without an exception moves the encoder one line on.
  write_line-advance :
      (p : Bytes) (e : ImageEncoder) (s : S) {x : ImageEncoder × S}
      → write_line h p (e, s) ≡ done x
      → x.0 ≡ advance e
  unfolding write_line
  write_line-advance p e s w = ground arith

  -- Lines that are written without an exception are counted, images of `rows` lines one after
  -- another, for any subclass and an encoder that stands inside an image of `rows` lines; the
  -- encoder then stands inside such an image, and the lines left are those that are missing of
  -- it.
  pub write_lines-position :
      (rows : ℕ) (ps : List Bytes) (e : ImageEncoder) (s : S) {x : ImageEncoder × S}
      → IsAt rows e
      → write_lines h ps (e, s) ≡ done x
      → IsAt rows x.0
        × (x.0.current_image * rows + x.0.current_line
            ≡ e.current_image * rows + e.current_line + length ps)
        × (lines_left_in_current_image x.0 ≡ pos (rows - x.0.current_line))
  unfolding write_lines lines_left_in_current_image
  write_lines-position rows [] e s at w = ground arith
  write_lines-position rows (p ∷ ps) e s at w =
      let ((e', s'), one, rest) = >>=-eq-done (write_line h p (e, s)) (write_lines h ps) w in
      let moved = write_line-advance p e s one in
      let now = advance-IsAt rows e at in
      let later = write_lines-position rows ps e' s' (rw moved (now.0)) rest in
      let one_more : e'.current_image * rows + e'.current_line
          ≡ e.current_image * rows + e.current_line + 1 =
        rw moved now.1 in
      (later.0, omega (arith, later.1, one_more), later.2)
