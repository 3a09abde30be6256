-- ===== src/ScanJob/Transfer.antt =====
-- `finishTransfer`. The subclasses of the encoder and the stream that they write to are the
-- parameter `Output`. The time of the last activity is taken from the clock of the world.
use air_sane.Prelude.{
  ℕ, zero, suc, ◌+◌, ◌/◌, Bool, true, not, ◌&&◌, ◌==◌, if◌then◌else◌, Option, none, some,
}
use air_sane.Prelude.Int.{beq_ℤ}
use air_sane.Text.{Bytes, codes, equal}
use air_sane.ImageEncoder.{
  ImageEncoder, Hooks, Outcome, done, thrown, Colorspace, grayscale, rgb, new_encoder,
  set_resolution_dpi, set_colorspace, set_width, set_height, set_bit_depth, set_destination,
  lines_left_in_current_image, write_line, end_document,
}
use air_sane.ImageEncoder
use air_sane.Sane.{SaneStatus, good, Parameters, Sane, Run, ok, out_of_fuel, crash, ◌>>=◌}
use air_sane.Sane.Session.{Session, read, is_good}
use air_sane.ScanJob.{aborted, unsupported_document_format, errors_detected, is_processing, Job}
use air_sane.ScanJob.Pixels.{Floats, apply_gamma, synthesize_gray}
use air_sane.ScanJob.Status.{At, put, close_session, update_status}

pub data EncoderKind : Type 0 where
  jpeg pdf png : EncoderKind

-- `flush` is `os.flush()`, and `stream_ok` the state of the stream, `bool(os)`.
pub record Output : Type 1 where
  pub Sink : Type 0
  pub hooks : EncoderKind → Hooks Sink
  pub stream_ok : Sink → Bool
  pub flush : Sink → Sink

-- The encoder for a document format.
unfoldable pub encoder_for : Bytes → Option EncoderKind
unfolding equal
encoder_for format =
    if equal format (codes "image/jpeg")
    then some jpeg
    else if equal format (codes "application/pdf")
    then some pdf
    else if equal format (codes "image/png")
    then some png
    else none

-- The setters in the order of the source.
unfoldable pub set_up : ℕ → Bool → Parameters → Outcome ImageEncoder
unfolding new_encoder set_resolution_dpi set_colorspace set_width set_height set_bit_depth
    set_destination
set_up dpi color p = ImageEncoder.◌>>=◌ (set_resolution_dpi dpi new_encoder) λ e.
    ImageEncoder.◌>>=◌ (set_colorspace (if color then rgb else grayscale) e) λ e.
      ImageEncoder.◌>>=◌ (set_width p.pixels_per_line e) λ e.
        ImageEncoder.◌>>=◌ (set_height p.lines e)
          λ e. ImageEncoder.◌>>=◌ (set_bit_depth p.depth e) (set_destination true)

module _ (sane : Sane) (output : Output) (floats : Floats) where
  open sane use {World, Settings, time}
  open output use {Sink, hooks, stream_ok, flush}

  -- The encoder with its sink, and the job in its world.
  abbrev pub Work : Type 0
  Work = (ImageEncoder × Sink) × At sane

  abbrev pub touch : At sane → At sane
  touch (j, w) = (record j { last_active = time w }, w)

  -- Whether grayscale is made from color data.
  abbrev pub synthesizes : Job Settings → Bool
  synthesizes j = not j.color_scan && j.synthesize_gray

  unfoldable pub prepare : Job Settings → Bytes → Bytes
  prepare j line =
      let corrected = apply_gamma j.gamma_table line in
      if synthesizes j then synthesize_gray floats j.bit_depth corrected else corrected

  -- `mpSession->read(buffer).status()`.
  unfoldable pub read_line : ℕ → At sane → Run ((SaneStatus × Bytes) × At sane)
  read_line fuel (j, w) = elim j.session [
    | none ↦ crash
    | some s ↦ do
      ((s', line), w') ← read sane fuel s.parameters.bytes_per_line s w
      ok ((s'.status, line), touch (record j { session = some s' }, w'))
  ]

  -- The body of the try block, and its handler.
  unfoldable pub put_line : EncoderKind → Bytes → Work → Work
  put_line k line (es, x) = elim (write_line (hooks k) (prepare x.0 line) es) [
    | done (e, s) ↦
        if stream_ok (flush s)
        then ((e, flush s), x)
        else ((e, flush s), close_session sane (put sane x aborted errors_detected))
    | thrown es' ↦ (es', close_session sane (put sane x aborted errors_detected))
  ]

  -- The inner loop. `reads` is the fuel of one `read`.
  unfoldable pub read_lines : ℕ → ℕ → EncoderKind → SaneStatus → Work → Run (SaneStatus × Work)
  read_lines zero reads k status x = out_of_fuel
  read_lines (suc fuel) reads k status (es, x) =
      let next = (do
        ((status', line), x') ← read_line reads x
        read_lines fuel reads k status'
            (if is_good status' then put_line k line (es, x') else (es, x'))) in
      if is_good status && stream_ok es.1 && is_processing (x.0).state
      then next
      else ok (status, (es, x))

  -- After the lines of one image.
  unfoldable pub end_image : ℕ → SaneStatus → Work → Run Work
  end_image fuel status (es, (j, w)) = do
    x ← update_status sane fuel status (record j { images_completed = j.images_completed + 1 }, w)
    ok (
      es,
      (if not (beq_ℤ (lines_left_in_current_image es.0) (es.0).height)
          then put sane x aborted errors_detected
          else x),
    )

  -- The outer loop.
  unfoldable pub transfer_images : ℕ → ℕ → EncoderKind → Work → Run Work
  transfer_images zero reads k x = out_of_fuel
  transfer_images (suc fuel) reads k (es, x) =
      let next = (do
        (status, y) ← read_lines reads reads k good (es, touch x)
        z ← (if is_processing ((y.1).0).state then end_image reads status y else ok y)
        transfer_images fuel reads k z) in
      if is_processing (x.0).state then next else ok (es, x)

  -- The line size that the encoder has to have.
  abbrev pub expected_bytes : Job Settings → Parameters → ℕ
  expected_bytes j p = if synthesizes j then p.bytes_per_line / 3 else p.bytes_per_line

  -- The second block: the encoder is given its parameters, and the line sizes are compared.
  unfoldable pub compare_sizes :
      Parameters → At sane → Outcome ImageEncoder → Run (ImageEncoder × At sane)
  compare_sizes p x (done e) = ok (
    e,
    (if not (e.bytes_per_line == expected_bytes x.0 p)
        then put sane x aborted errors_detected
        else x),
  )
  compare_sizes p x (thrown e) = crash

  unfoldable pub begin_at : Option Session → At sane → Run (ImageEncoder × At sane)
  begin_at none x = crash
  begin_at (some s) x =
      compare_sizes s.parameters x (set_up (x.0).res_dpi (x.0).color_scan s.parameters)

  unfoldable pub begin_images : At sane → Run (ImageEncoder × At sane)
  begin_images x = begin_at (x.0).session x

  -- `endDocument` stands outside the try block.
  unfoldable pub close_document : At sane → Outcome (ImageEncoder × Sink) → Run (Sink × At sane)
  close_document x (done es) = ok (es.1, touch x)
  close_document x (thrown es) = crash

  -- What follows when there is an encoder.
  unfoldable pub transfer_document : ℕ → EncoderKind → Sink → At sane → Run (Sink × At sane)
  transfer_document fuel k s x = do
    (e, y) ← begin_images x
    (es, z) ← transfer_images fuel fuel k ((e, s), y)
    close_document z (end_document (hooks k) es)

  unfoldable pub finish_transfer : ℕ → Sink → At sane → Run (Sink × At sane)
  finish_transfer fuel s x =
      if is_processing (x.0).state
      then elim (encoder_for (x.0).document_format) [
        | none ↦ ok (s, touch (put sane (touch x) aborted unsupported_document_format))
        | some k ↦ transfer_document fuel k s (touch x)
      ]
      else ok (s, touch (touch x))
