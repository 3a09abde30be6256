-- ===== src/ScanJob/Lines.antt =====
-- The loop over the lines of an image in `finishTransfer` (server/scanjob.cpp).
use air_sane.Prelude.{
  ℕ, zero, suc, ◌+◌, ◌≤◌, ◌<◌, ◌≡◌, ◌≢◌, refl, ap, ◌∙◌, true, false, ◌&&◌, some, arith, ◌⊎◌, inl,
  inr, if◌then◌else◌, Bool-cases, [],
}
use air_sane.Text.{Bytes}
use air_sane.ImageEncoder.{ImageEncoder, Outcome-cases, write_line}
use air_sane.Sane.{SaneStatus, good, Sane, ok}
use air_sane.Sane.Session.{is_good, read}
use air_sane.ScanJob.{State, aborted, processing, errors_detected, is_processing, Job}
use air_sane.ScanJob.Status.{At, put}
use air_sane.ScanJob.Sessions.{session-close_session}
use air_sane.ScanJob.Pixels.{Floats}
use air_sane.ScanJob.Transfer.{Output, EncoderKind, Work, prepare, read_line, put_line, read_lines}
use air_sane.ScanJob.Reading.{IsFinite, IsReady, read_loop-total}

pub is_processing_iff : (s : State) → s ≡ processing → is_processing s ≡ true
is_processing_iff s e = ground arith

pub is_processing-eq : (s : State) → is_processing s ≡ true → s ≡ processing
is_processing-eq s h = ground arith

is_good-eq : (status : SaneStatus) → is_good status ≡ true → status ≡ good
is_good-eq status h = ground arith

module _ (sane : Sane) (output : Output) (floats : Floats) (fin : IsFinite sane) where
  open sane use {World, Settings}
  open output use {Sink, hooks, stream_ok, flush}

  -- A line is either written and sent, or the job is aborted.
  put_line-cases :
      (k : EncoderKind) (line : Bytes) (es : ImageEncoder × Sink) (x : At sane)
      → ((put_line sane output floats k line (es, x)).1 ≡ x)
          × (stream_ok ((put_line sane output floats k line (es, x)).0).1 ≡ true)
        ⊎ ((((put_line sane output floats k line (es, x)).1).0).state ≢ processing)
  unfolding put_line
  put_line-cases k line es x =
      let stopped = session-close_session sane (put sane x aborted errors_detected) in
      elim (Outcome-cases (write_line (hooks k) (prepare sane output floats x.0 line) es)) [
        | inl ((e, s), w) ↦ elim (Bool-cases (stream_ok (flush s))) [
          | inl sent ↦ inl (rw (w, put_line) (rw sent), rw (w, put_line) (rw sent sent))
          | inr lost ↦ inr (rw (w, put_line) (rw lost (rw stopped (λ e. cc))))
        ]
        | inr (es', w) ↦ inr (rw (w, put_line) (rw stopped (λ e. cc)))
      ]

  -- What the inner loop leaves to the outer one.
  pub record Read (w : World) (status : SaneStatus) (y : Work sane output floats) : Type 0 where
    pub ready : ((y.1).0).state ≡ processing → IsReady (y.1).0
    pub keeps : ((y.1).0).state ≡ processing → fin.left (y.1).1 ≤ fin.left w
    pub sent : ((y.1).0).state ≡ processing → stream_ok (y.0).1 ≡ true
    pub at_end : ((y.1).0).state ≡ processing → is_good status ≡ false

  read_lines-stop :
      (fuel reads : ℕ) (k : EncoderKind) (status : SaneStatus) (x : Work sane output floats)
      → 0 < fuel
      → (is_good status ≡ false) ⊎ (((x.1).0).state ≢ processing)
      → read_lines sane output floats fuel reads k status x ≡ ok (status, x)
  unfolding read_lines
  read_lines-stop zero reads k status x z c = absurd (omega arith)
  read_lines-stop (suc fuel) reads k status x z (inl bad) = rw bad
  read_lines-stop (suc fuel) reads k status x z (inr n) =
      let stop : (is_good status && stream_ok (x.0).1 && is_processing ((x.1).0).state) ≡ false =
        ground (arith, n) in
      rw stop

  read_line-total :
      (reads : ℕ) (j : Job Settings) (w : World)
      → IsReady j
      → fin.left w < reads
      → (status : SaneStatus) × (line : Bytes) × (j' : Job Settings) × (w' : World) × (read_line
            sane output floats reads
            (j, w)
          ≡ ok ((status, line), (j', w')))
        × IsReady j'
        × (j'.state ≡ j.state)
        × (fin.left w' ≤ fin.left w)
        × (is_good status ≡ true → fin.left w' < fin.left w)
  unfolding read_line read
  read_line-total reads j w r h =
      let (((status, line), w'), e, keeps, less) =
        read_loop-total sane fin reads r.session.parameters.bytes_per_line [] w h in
      let s' = record r.session { status = status } in
      (
        status,
        line,
        record j { session = some s'; last_active = sane.time w' },
        w',
        rw (r.held, read_line) (rw (r.opened, read) (rw e)),
        record { session = s'; held = refl; opened = r.opened; nonempty = r.nonempty },
        refl,
        keeps,
        λ g. less g r.nonempty,
      )

  read_lines-step :
      (fuel reads : ℕ) (k : EncoderKind) (es : ImageEncoder × Sink) (x x' : At sane)
      (status : SaneStatus) (line : Bytes)
      → (x.0).state ≡ processing
      → stream_ok es.1 ≡ true
      → read_line sane output floats reads x ≡ ok ((status, line), x')
      → read_lines sane output floats (suc fuel) reads k good (es, x)
        ≡ read_lines sane output floats fuel reads k status
            (if is_good status then put_line sane output floats k line (es, x') else (es, x'))
  unfolding read_lines
  read_lines-step fuel reads k es x x' status line p sent e =
      let go : (stream_ok es.1 && is_processing (x.0).state) ≡ true =
        rw (sent, is_processing_iff _ p) in
      rw go (rw e)

  not_reading :
      (w : World) (status : SaneStatus) (y : Work sane output floats)
      → ((y.1).0).state ≢ processing
      → Read w status y
  not_reading w status y n = record {
    ready = λ p. absurd (n p);
    keeps = λ p. absurd (n p);
    sent = λ p. absurd (n p);
    at_end = λ p. absurd (n p);
  }

  -- The inner loop ends.
  pub read_lines-ends :
      (fuel reads : ℕ) (k : EncoderKind) (es : ImageEncoder × Sink) (j : Job Settings) (w : World)
      → fin.left w + 1 < fuel
      → fin.left w < reads
      → IsReady j
      → stream_ok es.1 ≡ true
      → j.state ≡ processing
      → (status : SaneStatus) × (y : Work sane output floats) × (read_lines sane output floats fuel
            reads k good
            (es, (j, w))
          ≡ ok (status, y))
        × Read w status y
  read_lines-ends zero reads k es j w f l r sent p = absurd (omega arith)
  read_lines-ends (suc fuel) reads k es j w f l r sent p =
      let (status, line, j', w', e, r', same, keeps, less) = read_line-total reads j w r l in
      let step = read_lines-step fuel reads k es (j, w) (j', w') status line p sent e in
      elim (Bool-cases (is_good status)) [
        | inl g ↦
            let y = put_line sane output floats k line (es, (j', w')) in
            let again : read_lines sane output floats (suc fuel) reads k good (es, (j, w))
                ≡ read_lines sane output floats fuel reads k status y =
              step ∙ rw g in
            elim (put_line-cases k line es (j', w')) [
              | inl (kept, sent') ↦
                  let (status', z, e', v) =
                    read_lines-ends fuel reads k y.0 j' w' (omega (arith, less g)) (omega arith) r'
                      sent' (same ∙ p) in
                  (
                    status',
                    z,
                    again
                        ∙ rw (is_good-eq status g) (
                            ap (λ x. read_lines sane output floats fuel reads k good (y.0, x)) kept
                            ∙ e'),
                    record {
                      ready = v.ready;
                      keeps = λ q. omega (arith, v.keeps q, less g);
                      sent = v.sent;
                      at_end = v.at_end;
                    },
                  )
              | inr stopped ↦ (
                status,
                y,
                again ∙ read_lines-stop fuel reads k status y (omega arith) (inr stopped),
                not_reading w status y stopped,
              )
            ]
        | inr b ↦ (
          status,
          (es, (j', w')),
          step ∙ rw b (read_lines-stop fuel reads k status (es, (j', w')) (omega arith) (inl b)),
          record { ready = λ _. r'; keeps = λ _. keeps; sent = λ _. sent; at_end = λ _. b },
        )
      ]
