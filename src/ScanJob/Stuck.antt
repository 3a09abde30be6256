-- ===== src/ScanJob/Stuck.antt =====
-- `finishTransfer` on a stream that is already bad (server/scanjob.cpp).
use air_sane.Prelude.{ℕ, zero, suc, ◌+◌, ◌<◌, ◌≡◌, refl, true, false, arith}
use air_sane.Prelude.Int.{ℤ, pos, negsuc, beq_ℤ}
use air_sane.ImageEncoder.{ImageEncoder, lines_left_in_current_image}
use air_sane.Sane.{good, Sane, ok, out_of_fuel}
use air_sane.ScanJob.{processing, job_scanning, is_processing}
use air_sane.ScanJob.Status.{At, update_status}
use air_sane.ScanJob.Lines.{is_processing_iff}
use air_sane.ScanJob.Pixels.{Floats}
use air_sane.ScanJob.Transfer.{
  Output, EncoderKind, Work, touch, read_lines, end_image, transfer_images,
}

beq_ℤ_refl : (a : ℤ) → beq_ℤ a a ≡ true
beq_ℤ_refl (pos n) = ground arith
beq_ℤ_refl (negsuc n) = ground arith

module _ (sane : Sane) (output : Output) (floats : Floats) where
  open sane use {World, Settings}
  open output use {Sink, stream_ok}

  read_lines-bad :
      (fuel reads : ℕ) (k : EncoderKind) (x : Work sane output floats)
      → 0 < fuel
      → stream_ok (x.0).1 ≡ false
      → read_lines sane output floats fuel reads k good x ≡ ok (good, x)
  unfolding read_lines
  read_lines-bad zero reads k x z bad = absurd (omega arith)
  read_lines-bad (suc fuel) reads k x z bad = rw bad

  -- The job after one more image of no lines.
  counted : At sane → At sane
  counted (j, w) = (
    record j {
      images_completed = j.images_completed + 1;
      state = processing;
      reason = job_scanning;
      adf_status = good;
    },
    w,
  )

  end_image-empty :
      (fuel : ℕ) (es : ImageEncoder × Sink) (x : At sane)
      → 0 < fuel
      → lines_left_in_current_image es.0 ≡ (es.0).height
      → end_image sane output floats fuel good (es, x) ≡ ok (es, counted x)
  unfolding end_image update_status counted
  end_image-empty zero es x z whole = absurd (omega arith)
  end_image-empty (suc fuel) es x z whole =
      let same : beq_ℤ (lines_left_in_current_image es.0) (es.0).height ≡ true =
        rw whole (beq_ℤ_refl (es.0).height) in
      rw same

  -- The loop over the images of a processing job does not end within any fuel when the stream is
  -- bad and the encoder stands at the beginning of an image: it counts images of no lines.
  pub transfer_images-stuck :
      (fuel reads : ℕ) (k : EncoderKind) (es : ImageEncoder × Sink) (x : At sane)
      → 0 < reads
      → (x.0).state ≡ processing
      → stream_ok es.1 ≡ false
      → lines_left_in_current_image es.0 ≡ (es.0).height
      → transfer_images sane output floats fuel reads k (es, x) ≡ out_of_fuel
  unfolding transfer_images counted
  transfer_images-stuck zero reads k es x z p bad whole = refl
  transfer_images-stuck (suc fuel) reads k es x z p bad whole =
      let going : is_processing (x.0).state ≡ true = is_processing_iff (x.0).state p in
      rw going (
        rw (read_lines-bad reads reads k (es, touch sane output floats x) z bad) (
          rw going (
            rw (end_image-empty reads es (touch sane output floats x) z whole) (
              transfer_images-stuck fuel reads k es (counted (touch sane output floats x)) z refl
                bad whole))))
