-- ===== src/ScanJob/Finish.antt =====
-- The images and the whole of `finishTransfer` (server/scanjob.cpp).
use air_sane.Prelude.{
  ℕ, ◌+◌, ◌<◌, ◌≡◌, ◌≢◌, refl, ap, ◌∙◌, Bool, true, false, not, some, arith, inl, inr,
  if◌then◌else◌, Bool-cases, Option-cases, ◌==◌,
}
use air_sane.ImageEncoder.{ImageEncoder, Outcome, done, thrown, end_document, call_if}
use air_sane.Sane.{Parameters, Sane, ok}
use air_sane.Sane.Session.{Session}
use air_sane.ScanJob.{
  aborted, processing, errors_detected, unsupported_document_format, is_processing, Job,
}
use air_sane.ScanJob.Status.{At, put}
use air_sane.ScanJob.Pixels.{Floats}
use air_sane.ScanJob.Transfer.{
  Output, EncoderKind, touch, transfer_images, begin_at, compare_sizes, close_document,
  begin_images, transfer_document, finish_transfer, encoder_for, set_up, expected_bytes,
}
use air_sane.ScanJob.Reading.{IsFinite, IsReady}
use air_sane.ScanJob.Images.{transfer_images-ends}

module _ (sane : Sane) (output : Output) (floats : Floats) (fin : IsFinite sane) where
  open sane use {World, Settings}
  open output use {Sink, hooks, stream_ok, flush}

  set_up-done :
      (dpi : ℕ) (color : Bool) (p : Parameters) → (e : ImageEncoder) × (set_up dpi color p ≡ done e)
  unfolding set_up
  set_up-done dpi true p = (_, refl)
  set_up-done dpi false p = (_, refl)

  begin_images-held :
      (j : Job Settings) (w : World) (t : Session) (e : ImageEncoder)
      → j.session ≡ some t
      → set_up j.res_dpi j.color_scan t.parameters ≡ done e
      → begin_images sane output floats (j, w)
        ≡ ok (
          e,
          (if not (e.bytes_per_line == expected_bytes sane output floats j t.parameters)
              then put sane (j, w) aborted errors_detected
              else (j, w)),
        )
  unfolding begin_images begin_at compare_sizes
  begin_images-held j w t e held built =
      ap (λ o. begin_at sane output floats o (j, w)) held
      ∙ ap (compare_sizes sane output floats t.parameters (j, w)) built

  begin_images-ends :
      (j : Job Settings) (w : World)
      → IsReady j
      → (e : ImageEncoder) × (j' : Job Settings) × (begin_images sane output floats (j, w)
          ≡ ok (e, (j', w)))
        × (j'.state ≡ processing → IsReady j')
  begin_images-ends j w r =
      let p = r.session.parameters in
      let (e, built) = set_up-done j.res_dpi j.color_scan p in
      let begun = begin_images-held j w r.session e r.held built in
      elim (Bool-cases (not (e.bytes_per_line == expected_bytes sane output floats j p))) [
        | inl differs ↦
            (e, record j { state = aborted; reason = errors_detected }, begun ∙ rw differs, λ q. cc)
        | inr fits ↦ (e, j, begun ∙ rw fits, λ _. r)
      ]

  call_if-done :
      (b : Bool) (f : ImageEncoder → Sink → Outcome Sink) (e : ImageEncoder) (t : Sink)
      → ((t' : Sink) × (f e t ≡ done t'))
      → (y : ImageEncoder × Sink) × (call_if b f (e, t) ≡ done y)
  call_if-done true f e t (t', c) =
      let g : Outcome Sink → Outcome (ImageEncoder × Sink) =
        λ o. elim o [ done s' ↦ done (e, s') | thrown s' ↦ thrown (e, s') ] in
      ((e, t'), ap g c)
  call_if-done false f e t c = ((e, t), refl)

  -- No encoder throws at the end of a document.
  abbrev pub Closes : Type 0
  Closes =
      (k : EncoderKind) (e : ImageEncoder) (t : Sink)
      → (t' : Sink) × ((hooks k).on_document_end e t ≡ done t')

  end_document-done :
      (k : EncoderKind) (es : ImageEncoder × Sink)
      → Closes
      → (es' : ImageEncoder × Sink) × (end_document (hooks k) es ≡ done es')
  unfolding end_document
  end_document-done k (e, s) closes =
      call_if-done e.destination (hooks k).on_document_end e s (closes k e s)

  transfer_document-step :
      (fuel : ℕ) (k : EncoderKind) (s : Sink) (x y z : At sane) (e : ImageEncoder)
      (es es' : ImageEncoder × Sink)
      → begin_images sane output floats x ≡ ok (e, y)
      → transfer_images sane output floats fuel fuel k ((e, s), y) ≡ ok (es, z)
      → end_document (hooks k) es ≡ done es'
      → transfer_document sane output floats fuel k s x ≡ ok (es'.1, touch sane output floats z)
  unfolding transfer_document close_document
  transfer_document-step fuel k s x y z e es es' begun ended done_end =
      rw begun (rw ended (ap (close_document sane output floats z) done_end))

  transfer_document-ends :
      (fuel : ℕ) (k : EncoderKind) (s : Sink) (j : Job Settings) (w : World)
      → IsReady j
      → fin.left w + 1 < fuel
      → stream_ok s ≡ true
      → Closes
      → (s' : Sink) × (x : At sane) × (transfer_document sane output floats fuel k s (j, w)
          ≡ ok (s', x))
        × ((x.0).state ≢ processing)
  transfer_document-ends fuel k s j w r f sent closes =
      let (e, j', begun, r') = begin_images-ends j w r in
      let ((es, z), ended, n) =
        transfer_images-ends sane output floats fin fuel fuel k (e, s) (j', w) (omega arith)
          (λ p. (f, f, r' p, sent)) in
      let (es', done_end) = end_document-done k es closes in
      (
        es'.1,
        touch sane output floats z,
        transfer_document-step fuel k s (j, w) (j', w) z e es es' begun ended done_end,
        n,
      )

  -- On a device with finitely much data, finishTransfer of a job whose open session has lines
  -- that are not empty returns, for fuel that is greater than what is left to be read and one, a
  -- stream that is good, and an encoder that does not throw at the end of a document; the job is
  -- then not processing any more.
  pub finish_transfer-ends :
      (fuel : ℕ) (s : Sink) (j : Job Settings) (w : World)
      → IsReady j
      → fin.left w + 1 < fuel
      → stream_ok s ≡ true
      → Closes
      → (s' : Sink) × (x : At sane) × (finish_transfer sane output floats fuel s (j, w)
          ≡ ok (s', x))
        × ((x.0).state ≢ processing)
  unfolding finish_transfer
  finish_transfer-ends fuel s j w r f sent closes = elim (Bool-cases (is_processing j.state)) [
    | inr n ↦ (
      s,
      touch sane output floats (touch sane output floats (j, w)),
      rw n,
      λ e. ground (arith, n, e),
    )
    | inl p ↦ elim (Option-cases (encoder_for j.document_format)) [
      | inl unknown ↦
          let x =
            touch sane output floats
              (put sane (touch sane output floats (j, w)) aborted unsupported_document_format) in
          (s, x, rw p (rw unknown), λ (e : (x.0).state ≡ processing). cc)
      | inr (k, known) ↦
          let (s', x, e, n) =
            transfer_document-ends fuel k s (touch sane output floats (j, w)).0 w
              (record {
                session = r.session;
                held = r.held;
                opened = r.opened;
                nonempty = r.nonempty;
              })
              f sent closes in
          (s', x, rw p (rw known e), n)
    ]
  ]
