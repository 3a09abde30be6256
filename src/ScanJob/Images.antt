-- ===== src/ScanJob/Images.antt =====
-- The loop over the images of a document in `finishTransfer` (server/scanjob.cpp).
use air_sane.Prelude.{
  ℕ, zero, suc, ◌+◌, ◌<◌, ◌≡◌, ◌≢◌, ◌∙◌, true, false, not, arith, inl, inr, if◌then◌else◌,
  Bool-cases,
}
use air_sane.Prelude.Int.{beq_ℤ}
use air_sane.ImageEncoder.{ImageEncoder, lines_left_in_current_image}
use air_sane.Sane.{SaneStatus, good, Sane, ok, ◌>>=◌}
use air_sane.ScanJob.{State, aborted, processing, errors_detected, is_processing}
use air_sane.ScanJob.Status.{At, put}
use air_sane.ScanJob.Pixels.{Floats}
use air_sane.ScanJob.Transfer.{
  Output, EncoderKind, Work, touch, read_lines, end_image, transfer_images,
}
use air_sane.ScanJob.Reading.{IsFinite, IsReady}
use air_sane.ScanJob.Ending.{update_status-ends}
use air_sane.ScanJob.Lines.{is_processing_iff, is_processing-eq, Read, read_lines-ends}

module _ (sane : Sane) (output : Output) (floats : Floats) (fin : IsFinite sane) where
  open sane use {World, Settings}
  open output use {Sink, hooks, stream_ok, flush}

  is_processing-neq : (s : State) → s ≢ processing → is_processing s ≡ false
  is_processing-neq s n = ground arith

  transfer_images-stop :
      (fuel reads : ℕ) (k : EncoderKind) (x : Work sane output floats)
      → 0 < fuel
      → ((x.1).0).state ≢ processing
      → transfer_images sane output floats fuel reads k x ≡ ok x
  unfolding transfer_images
  transfer_images-stop zero reads k x z n = absurd (omega arith)
  transfer_images-stop (suc fuel) reads k x z n = rw (is_processing-neq _ n)

  transfer_images-step :
      (fuel reads : ℕ) (k : EncoderKind) (es : ImageEncoder × Sink) (x : At sane)
      (status : SaneStatus) (y : Work sane output floats)
      → (x.0).state ≡ processing
      → read_lines sane output floats reads reads k good (es, touch sane output floats x)
        ≡ ok (status, y)
      → transfer_images sane output floats (suc fuel) reads k (es, x) ≡ (
          (if is_processing ((y.1).0).state
            then end_image sane output floats reads status y
            else ok y)
          >>= transfer_images sane output floats fuel reads k)
  unfolding transfer_images
  transfer_images-step fuel reads k es x status y p e = rw (is_processing_iff _ p) (rw e)

  -- After an image the job is not processing, or can go on with less left to read.
  end_image-ends :
      (reads : ℕ) (status : SaneStatus) (y : Work sane output floats) (w : World)
      → fin.left (y.1).1 + 1 < reads
      → ((y.1).0).state ≡ processing
      → Read sane output floats fin w status y
      → (x : At sane) × (end_image sane output floats reads status y ≡ ok (y.0, x))
        × ((x.0).state ≡ processing → IsReady x.0 × (fin.left x.1 < fin.left (y.1).1))
  unfolding end_image
  end_image-ends reads status (es, (j, w)) _ f p v =
      let r = v.ready p in
      let now = record j { images_completed = j.images_completed + 1 } in
      let (x, e, g) =
        update_status-ends sane fin reads status now w (omega arith) (λ _. f)
          (record {
            session = r.session;
            held = r.held;
            opened = r.opened;
            nonempty = λ _. r.nonempty;
          }) in
      elim (Bool-cases (not (beq_ℤ (lines_left_in_current_image es.0) (es.0).height))) [
        | inl partial ↦ (put sane x aborted errors_detected, rw e (rw partial), λ q. cc)
        | inr whole ↦ (x, rw e (rw whole), λ q. (g.ready q, g.takes q (v.at_end p)))
      ]

  -- The outer loop ends, with a job that is not processing any more.
  pub transfer_images-ends :
      (fuel reads : ℕ) (k : EncoderKind) (es : ImageEncoder × Sink) (x : At sane)
      → 0 < fuel
      → ((x.0).state ≡ processing
          → (fin.left x.1 + 1 < fuel)
            × (fin.left x.1 + 1 < reads)
            × IsReady x.0
            × (stream_ok es.1 ≡ true))
      → (z : Work sane output floats) × (transfer_images sane output floats fuel reads k (es, x)
          ≡ ok z)
        × (((z.1).0).state ≢ processing)
  transfer_images-ends zero reads k es x z h = absurd (omega arith)
  transfer_images-ends (suc fuel) reads k es x z h = elim (Bool-cases (is_processing (x.0).state)) [
    | inr n ↦ ((es, x), transfer_images-stop (suc fuel) reads k (es, x) z (λ e. cc), λ e. cc)
    | inl q ↦
        let p : (x.0).state ≡ processing = is_processing-eq _ q in
        let (f, l, r, sent) = h p in
        let (status, y, e, v) =
          read_lines-ends sane output floats fin reads reads k es (touch sane output floats x).0 x.1
            l (omega arith)
            (record {
              session = r.session;
              held = r.held;
              opened = r.opened;
              nonempty = r.nonempty;
            })
            sent p in
        let step = transfer_images-step fuel reads k es x status y p e in
        elim (Bool-cases (is_processing ((y.1).0).state)) [
          | inr n ↦ (
            y,
            step ∙ rw n (transfer_images-stop fuel reads k y (omega arith) (λ e. cc)),
            λ e. cc,
          )
          | inl q' ↦
              let p' : ((y.1).0).state ≡ processing = is_processing-eq _ q' in
              let (x', e', g) =
                end_image-ends reads status y x.1 (omega (arith, v.keeps p')) p' v in
              let (u, e'', n) = transfer_images-ends fuel reads k y.0 x' (omega arith) λ p''. (
                omega (arith, (g p'').1, v.keeps p'),
                omega (arith, (g p'').1, v.keeps p'),
                (g p'').0,
                v.sent p',
              ) in
              (u, step ∙ rw q' (rw e' e''), n)
        ]
  ]
