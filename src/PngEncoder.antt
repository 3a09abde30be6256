-- ===== src/PngEncoder.antt =====
-- imageformats/pngencoder.cpp on a little-endian machine: the encoder that gives its lines to libpng,
-- as the `Hooks` of the base class. libpng, with the stream that it writes to, is the parameter `Png`;
-- its error handler throws, so that each call has an outcome.
use air_sane.Prelude.{
  ℕ, ◌*◌, ◌/◌, ◌==◌, ◌≡◌, refl, Bool, true, false, not, ◌⊎◌, inl, inr, if◌then◌else◌, ltb,
  Bool-cases,
}
use air_sane.Prelude.Int.{ℤ, pos, beq_ℤ}
use air_sane.Text.{Bytes}
use air_sane.ImageEncoder.{
  ImageEncoder, Hooks, Outcome, done, thrown, ◌>>=◌, Colorspace, unknown, grayscale, rgb,
}
use air_sane.PdfText.{swap_bytes}

-- The calls of libpng that the encoder makes, on the state of a png struct.
pub record Png (P : Type 0) : Type 0 where
  pub color_type_gray : ℕ
  pub color_type_rgb : ℕ
  -- png_create_write_struct, png_create_info_struct and the functions that are set for them
  pub create : P → P
  -- width, height, bits and color type
  pub set_ihdr : ℕ → ℤ → ℕ → ℕ → P → Outcome P
  pub set_phys : ℕ → P → Outcome P
  pub write_info : P → Outcome P
  pub set_flush : ℕ → P → Outcome P
  pub write_row : Bytes → P → Outcome P
  pub write_end : P → Outcome P
  pub destroy : P → P

-- `line_buffer` is the size of `mLineBuffer`, and `streaming` whether `mpStream` is set.
pub record PngEncoder (P : Type 0) : Type 0 where
  pub png : P
  pub line_buffer : ℕ
  pub streaming : Bool

module _ {P : Type 0} (lib : Png P) where
  unfoldable pub color_type : Colorspace → ℕ
  color_type unknown = 0
  color_type grayscale = lib.color_type_gray
  color_type rgb = lib.color_type_rgb

  -- A call of libpng on the struct of an encoder.
  abbrev pub call : (P → Outcome P) → PngEncoder P → Outcome (PngEncoder P)
  call f s = elim (f s.png) as (λ _. Outcome (PngEncoder P)) [
    | done p ↦ done (record s { png = p })
    | thrown p ↦ thrown (record s { png = p })
  ]

  unfoldable pub on_document_begin : ImageEncoder → PngEncoder P → Outcome (PngEncoder P)
  on_document_begin e s = done s

  -- The header of an image.
  unfoldable pub write_header : ImageEncoder → PngEncoder P → Outcome (PngEncoder P)
  unfolding color_type
  write_header e s = do
    a ← call (lib.set_ihdr e.width e.height e.bit_depth (color_type e.colorspace)) s
    b ← call (lib.set_phys (e.dpi * 10000 / 254)) a
    c ← call lib.write_info b
    call (lib.set_flush 10) c

  unfoldable pub on_image_begin : ImageEncoder → PngEncoder P → Outcome (PngEncoder P)
  unfolding write_header
  on_image_begin e s =
      if ltb 0 e.current_image
      then thrown s
      else if not (beq_ℤ e.orientation_degrees (pos 0))
      then thrown s
      else write_header e (record s {
        line_buffer = if e.bit_depth == 16 then e.width * e.components else 0;
        png = lib.create s.png;
        streaming = true;
      })

  unfoldable pub on_image_end : ImageEncoder → PngEncoder P → Outcome (PngEncoder P)
  on_image_end e s =
      call lib.write_end s >>= λ t. done (record t { png = lib.destroy t.png; streaming = false })

  unfoldable pub on_write_line : ImageEncoder → Bytes → PngEncoder P → Outcome (PngEncoder P)
  unfolding swap_bytes
  on_write_line e line s =
      if s.line_buffer == 0
      then call (lib.write_row line) s
      else call (lib.write_row (swap_bytes s.line_buffer line)) s

  unfoldable pub on_document_end : ImageEncoder → PngEncoder P → Outcome (PngEncoder P)
  on_document_end e s = done s

  abbrev pub png_hooks : Hooks (PngEncoder P)
  png_hooks = record {
    on_document_begin = on_document_begin;
    on_image_begin = on_image_begin;
    on_write_line = on_write_line;
    on_image_end = on_image_end;
    on_document_end = on_document_end;
  }

  -- A second image and a rotated one are refused, before libpng is asked.
  on_image_begin-refuses :
      (e : ImageEncoder) (s : PngEncoder P)
      → (ltb 0 e.current_image ≡ true) ⊎ (beq_ℤ e.orientation_degrees (pos 0) ≡ false)
      → on_image_begin e s ≡ thrown s
  unfolding on_image_begin
  on_image_begin-refuses e s (inl second) = rw second refl
  on_image_begin-refuses e s (inr rotated) = elim (Bool-cases (ltb 0 e.current_image)) [
    | inl second ↦ rw second refl
    | inr first ↦ rw (first, rotated) refl
  ]
