-- ===== src/ImageEncoder.antt =====
-- imageformats/imageencoder.cpp: the base class of the encoders. A subclass is a `Hooks`, the
-- virtual functions over the subclass's own state (its destination stream included); an exception
-- is the outcome `thrown`, with the state that it leaves behind.
-- Numbers of C++ type int that the callers keep non-negative are natural numbers; the height is an
-- integer, since SANE reports -1 lines for a scan of unknown length. Results stay in the range of int.
pub mod Keeping
pub mod Position
pub mod Sizes
pub mod Trace
use air_sane.Prelude.{
  ℕ, ◌+◌, ◌*◌, ◌/◌, Bool, true, false, ◌&&◌, ◌==◌, if◌then◌else◌, List, [], ◌∷◌, not, ◌≡◌, refl,
  ◌⊎◌, inl, inr,
}
use air_sane.Prelude.Int.{ℤ, pos, ◌-ℤ◌, beq_ℤ}
use air_sane.Text.{Bytes}

pub data Colorspace : Type 0 where
  unknown grayscale rgb : Colorspace

pub record ImageEncoder : Type 0 where
  pub width : ℕ
  pub height : ℤ
  pub components : ℕ
  pub bit_depth : ℕ
  pub dpi : ℕ
  pub orientation_degrees : ℤ
  pub bytes_per_line : ℕ
  pub current_line : ℕ
  pub current_image : ℕ
  pub colorspace : Colorspace
  -- whether `mpDestination` is set
  pub destination : Bool

unfoldable pub new_encoder : ImageEncoder
new_encoder = record {
  width = 0;
  height = pos 0;
  components = 0;
  bit_depth = 0;
  dpi = 0;
  orientation_degrees = pos 0;
  bytes_per_line = 0;
  current_line = 0;
  current_image = 0;
  colorspace = unknown;
  destination = false;
}

pub data Outcome {ℓ} (A : Type ℓ) : Type ℓ where
  done : A → Outcome A
  thrown : A → Outcome A

infixl 5 ◌>>=◌
abbrev pub ◌>>=◌ {ℓ} : {A : Type ℓ} → Outcome A → (A → Outcome A) → Outcome A
done a >>= f = f a
thrown a >>= f = thrown a

pub Outcome-cases {ℓ} :
    {A : Type ℓ} (m : Outcome A) → ((a : A) × (m ≡ done a)) ⊎ ((a : A) × (m ≡ thrown a))
Outcome-cases (done a) = inl (a, refl)
Outcome-cases (thrown a) = inr (a, refl)

unfoldable pub components_of : Colorspace → ℕ
components_of grayscale = 1
components_of rgb = 3
components_of unknown = 1

unfoldable pub on_param_change : ImageEncoder → Outcome ImageEncoder
unfolding components_of
on_param_change e =
    if not (e.current_line == 0)
    then thrown e
    else let n = components_of e.colorspace in
      done (record e { components = n; bytes_per_line = n * e.width * e.bit_depth / 8 })

unfoldable pub set_width : ℕ → ImageEncoder → Outcome ImageEncoder
unfolding on_param_change
set_width w e = on_param_change (record e { width = w })

unfoldable pub set_height : ℤ → ImageEncoder → Outcome ImageEncoder
unfolding on_param_change
set_height h e = on_param_change (record e { height = h })

unfoldable pub set_bit_depth : ℕ → ImageEncoder → Outcome ImageEncoder
unfolding on_param_change
set_bit_depth b e = on_param_change (record e { bit_depth = b })

unfoldable pub set_resolution_dpi : ℕ → ImageEncoder → Outcome ImageEncoder
unfolding on_param_change
set_resolution_dpi d e = on_param_change (record e { dpi = d })

unfoldable pub set_orientation_degrees : ℤ → ImageEncoder → Outcome ImageEncoder
set_orientation_degrees d e = done (record e { orientation_degrees = d })

unfoldable pub set_colorspace : Colorspace → ImageEncoder → Outcome ImageEncoder
unfolding on_param_change
set_colorspace c e = on_param_change (record e { colorspace = c })

unfoldable pub set_destination : Bool → ImageEncoder → Outcome ImageEncoder
unfolding on_param_change
set_destination p e = on_param_change (record e { destination = p })

unfoldable pub lines_left_in_current_image : ImageEncoder → ℤ
unfolding ◌-ℤ◌
lines_left_in_current_image e = e.height -ℤ pos e.current_line

-- The virtual functions of a subclass with state `S`.
pub record Hooks (S : Type 0) : Type 0 where
  pub on_document_begin : ImageEncoder → S → Outcome S
  pub on_image_begin : ImageEncoder → S → Outcome S
  pub on_write_line : ImageEncoder → Bytes → S → Outcome S
  pub on_image_end : ImageEncoder → S → Outcome S
  pub on_document_end : ImageEncoder → S → Outcome S

-- `++mCurrentLine`, and on to the next image after the last line.
unfoldable pub advance : ImageEncoder → ImageEncoder
advance e =
    if beq_ℤ (pos (e.current_line + 1)) e.height
    then record e { current_line = 0; current_image = e.current_image + 1 }
    else record e { current_line = e.current_line + 1 }

module _ {S : Type 0} where
  -- A virtual call, which sees the base class and changes the subclass.
  abbrev pub call : (ImageEncoder → S → Outcome S) → ImageEncoder × S → Outcome (ImageEncoder × S)
  call f (e, s) = elim (f e s) [ done s' ↦ done (e, s') | thrown s' ↦ thrown (e, s') ]

  abbrev pub call_if :
      Bool → (ImageEncoder → S → Outcome S) → ImageEncoder × S → Outcome (ImageEncoder × S)
  call_if true f x = call f x
  call_if false f x = done x

  unfoldable pub write_line : Hooks S → Bytes → ImageEncoder × S → Outcome (ImageEncoder × S)
  unfolding advance
  write_line h p (e, s) = do
    x ← call_if (e.current_line == 0 && e.current_image == 0) h.on_document_begin (e, s)
    y ← call_if (e.current_line == 0 && e.destination) h.on_image_begin x
    z ← call_if e.destination (λ e' s'. h.on_write_line e' p s') y
    let e' = advance z.0
    call_if (e'.current_line == 0 && e'.destination) h.on_image_end (e', z.1)

  unfoldable pub end_document : Hooks S → ImageEncoder × S → Outcome (ImageEncoder × S)
  end_document h (e, s) = call_if e.destination h.on_document_end (e, s)

  -- The caller's loop: a line for each buffer, until an exception.
  unfoldable pub write_lines : Hooks S → List Bytes → ImageEncoder × S → Outcome (ImageEncoder × S)
  write_lines h [] x = done x
  write_lines h (p ∷ ps) x = write_line h p x >>= write_lines h ps
