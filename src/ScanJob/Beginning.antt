-- ===== src/ScanJob/Beginning.antt =====
-- `beginTransfer` (server/scanjob.cpp) on a device with finitely much data.
use air_sane.Prelude.{
  ℕ, ◌+◌, ◌≤◌, ◌<◌, ◌≡◌, refl, ◌∙◌, Bool, true, false, none, some, arith, Option-cases, ◌⊎◌, inl,
  inr, Bool-cases,
}
use air_sane.Sane.{Sane, ok}
use air_sane.Sane.Session.{Session, is_good, new_session}
use air_sane.ScanJob.{State, processing, is_processing, is_pending, Job}
use air_sane.ScanJob.Status.{At, close_session, begin_transfer, open_session, start_session}
use air_sane.ScanJob.Sessions.{is_open}
use air_sane.ScanJob.Begin.{
  opened_first, close_unless_processing, begin_transfer-pending, is_pending-eq,
}
use air_sane.ScanJob.Reading.{IsFinite, IsReady, start-total}
use air_sane.ScanJob.Ending.{update_status-ends, start_job-held}

is_processing-eq : (s : State) → is_processing s ≡ true → s ≡ processing
is_processing-eq s h = ground arith

module _ (sane : Sane) (fin : IsFinite sane) where
  open sane use {World, Settings, sane_open}
  open fin use {left}

  start_session-ends :
      (fuel : ℕ) (s : Session) (j : Job Settings) (w : World)
      → j.session ≡ some s
      → s.has_device ≡ true
      → left w + 1 < fuel
      → (x : At sane) × (start_session sane fuel (j, w) ≡ ok x)
        × ((x.0).state ≡ processing → IsReady x.0 × (left x.1 ≤ left w))
  unfolding start_session
  start_session-ends fuel s j w held opened f =
      let (s', w', started, d, p, le, lt) = start-total sane fin s w opened in
      let (x, e, g) =
        update_status-ends sane fin fuel s'.status (record j { session = some s' }) w' (omega arith)
          (λ _. omega arith) (record { session = s'; held = refl; opened = d; nonempty = p }) in
      (
        x,
        rw (start_job-held sane fin s s' j w w' held started) e,
        λ q. (g.ready q, omega (arith, g.keeps q)),
      )

  opened_first-held :
      (j : Job Settings) (w : World)
      → (is_open j.session ≡ true) ⊎ ((j.session ≡ none) × (is_good (sane_open w).0 ≡ true))
      → (s : Session) × ((opened_first sane j w).0.session ≡ some s)
        × (s.has_device ≡ true)
        × (left (opened_first sane j w).1 ≤ left w)
  unfolding opened_first open_session new_session
  opened_first-held j w (inl o) = elim (Option-cases j.session) [
    | inl e ↦ absurd (ground (arith, e))
    | inr (s, e) ↦
        (s, rw (e, opened_first) e, ground (arith, e), rw (e, opened_first) (omega arith))
  ]
  opened_first-held j w (inr (e, g)) = (
    (new_session sane w).0,
    rw (e, opened_first) (rw g),
    g,
    rw (e, opened_first)
        (rw g (omega (arith, fin.configure_keeps j.settings (sane_open w).1, fin.open_keeps w))),
  )

  -- On a device with finitely much data, beginTransfer returns for fuel that is greater than what
  -- is left to be read and one, if the session of the job is open or if it has none and the
  -- device can be opened. When the answer is true, the session is open, has lines that are not
  -- empty, and no more is left to be read than before.
  pub begin_transfer-ends :
      (fuel : ℕ) (j : Job Settings) (w : World)
      → (is_open j.session ≡ true) ⊎ ((j.session ≡ none) × (is_good (sane_open w).0 ≡ true))
      → left w + 1 < fuel
      → (b : Bool) × (x : At sane) × (begin_transfer sane fuel (j, w) ≡ ok (b, x))
        × (b ≡ true → IsReady x.0 × (left x.1 ≤ left w))
  begin_transfer-ends fuel j w o f = elim (Bool-cases (is_pending j.state)) [
    | inl p ↦
        let (s, held, opened, less) = opened_first-held j w o in
        let (x, e, g) =
          start_session-ends fuel s (opened_first sane j w).0 (opened_first sane j w).1 held opened
            (omega arith) in
        let begun = begin_transfer-pending sane fuel j w (is_pending-eq j.state p) in
        unfold close_unless_processing in
        elim (Bool-cases (is_processing (x.0).state)) [
          | inl q ↦ (
            true,
            x,
            begun ∙ rw e (rw q),
            λ _.
                let (ready, le) = g (is_processing-eq (x.0).state q) in
                (ready, omega (arith, le, less)),
          )
          | inr n ↦ (false, close_session sane x, begun ∙ rw e (rw n), λ b. cc)
        ]
    | inr n ↦ (false, (j, w), unfold begin_transfer in rw n, λ b. cc)
  ]
