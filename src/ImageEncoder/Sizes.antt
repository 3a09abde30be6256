-- ===== src/ImageEncoder/Sizes.antt =====
-- The line size that the base class computes from its parameters.
use air_sane.Prelude.{ℕ, ◌*◌, ◌/◌, ◌≡◌, ◌≢◌, refl, arith, Bool, true, false}
use air_sane.Prelude.Int.{ℤ}
use air_sane.ImageEncoder.{
  ImageEncoder, Colorspace, Outcome, done, thrown, components_of, new_encoder, set_width,
  set_height, set_bit_depth, set_resolution_dpi, set_orientation_degrees, set_colorspace,
  set_destination, advance, on_param_change,
}

-- A change of one parameter.
pub data Setting : Type 0 where
  width bit_depth dpi : ℕ → Setting
  height orientation : ℤ → Setting
  colorspace : Colorspace → Setting
  destination : Bool → Setting

unfoldable pub apply : Setting → ImageEncoder → Outcome ImageEncoder
unfolding set_width set_height set_bit_depth set_resolution_dpi set_orientation_degrees
    set_colorspace set_destination
apply (Setting.width w) = set_width w
apply (Setting.bit_depth b) = set_bit_depth b
apply (Setting.dpi d) = set_resolution_dpi d
apply (Setting.height h) = set_height h
apply (Setting.orientation d) = set_orientation_degrees d
apply (Setting.colorspace c) = set_colorspace c
apply (Setting.destination p) = set_destination p

abbrev pub is_orientation : Setting → Bool
is_orientation (orientation _) = true
is_orientation _ = false

-- The bytes of a line are those of its pixels, rounded down to whole bytes.
abbrev pub IsSized : ImageEncoder → Type 0
IsSized e = e.bytes_per_line ≡ components_of e.colorspace * e.width * e.bit_depth / 8

new_encoder-IsSized : IsSized new_encoder
unfolding new_encoder components_of
new_encoder-IsSized = refl

advance-IsSized : (e : ImageEncoder) → IsSized e → IsSized (advance e)
unfolding advance
advance-IsSized e h = ground arith

-- What `onParamChange` does on each of its branches.
abbrev pub Settles : ImageEncoder → Outcome ImageEncoder → Type 0
Settles e r =
    (e.current_line ≡ 0 → (e' : ImageEncoder) × (r ≡ done e') × IsSized e')
    × (e.current_line ≢ 0
        → (e' : ImageEncoder) × (r ≡ thrown e') × (e'.bytes_per_line ≡ e.bytes_per_line))

on_param_change-Settles : (e : ImageEncoder) → Settles e (on_param_change e)
unfolding on_param_change
on_param_change-Settles e = (
  λ h. (
    record e {
      components = components_of e.colorspace;
      bytes_per_line = components_of e.colorspace * e.width * e.bit_depth / 8;
    },
    ground arith,
    refl,
  ),
  λ h. (e, ground arith, refl),
)

-- For an encoder whose line size is in step with its parameters: between images every setter
-- succeeds and leaves the line size in step with the parameters; inside an image every setter but
-- that of the orientation throws, and leaves the line size as it was; that of the orientation
-- never throws.
pub apply-Settles :
    (c : Setting) (e : ImageEncoder)
    → IsSized e
    → (is_orientation c ≡ false → Settles e (apply c e))
      × (is_orientation c ≡ true → (e' : ImageEncoder) × (apply c e ≡ done e') × IsSized e')
unfolding apply
apply-Settles (width w) e h = (λ _. on_param_change-Settles (record e { width = w }), λ n. cc)
apply-Settles (bit_depth b) e h =
    (λ _. on_param_change-Settles (record e { bit_depth = b }), λ n. cc)
apply-Settles (dpi d) e h = (λ _. on_param_change-Settles (record e { dpi = d }), λ n. cc)
apply-Settles (height a) e h = (λ _. on_param_change-Settles (record e { height = a }), λ n. cc)
apply-Settles (orientation d) e h = (λ n. cc, λ _. (record e { orientation_degrees = d }, refl, h))
apply-Settles (colorspace a) e h =
    (λ _. on_param_change-Settles (record e { colorspace = a }), λ n. cc)
apply-Settles (destination p) e h =
    (λ _. on_param_change-Settles (record e { destination = p }), λ n. cc)
