-- ===== src/ScanJob/Begin.antt =====
-- `beginTransfer` and `cancel`: what they promise of the state and of the session.
use air_sane.Prelude.{
  ℕ, ◌≡◌, ◌≢◌, refl, sym, ◌∙◌, Bool, true, false, none, some, arith, ◌⊎◌, inl, inr, if◌then◌else◌,
  Bool-cases,
}
use air_sane.Sane.{Sane, Run, ok, crash, ◌>>=◌, >>=-eq-ok}
use air_sane.Sane.Session.{start, is_good, new_session}
use air_sane.ScanJob.{
  job_canceled_by_user, State, canceled, pending, processing, is_processing, is_pending,
  is_finished, Job,
}
use air_sane.ScanJob.Status.{
  At, close_session, start_job, begin_transfer, cancel_job, open_session, start_session, put,
}
use air_sane.ScanJob.Sessions.{
  is_open, Settled, start_job-is_open, session-close_session, update_status-Settled,
}

-- A job that is processing has its session open, a finished one has none, and no job keeps a
-- session whose device could not be opened.
pub record IsSound {S : Type 0} (j : Job S) : Type 0 where
  pub open_while_processing : j.state ≡ processing → is_open j.session ≡ true
  pub closed_when_finished : is_finished j.state ≡ true → j.session ≡ none
  pub open_or_none : (j.session ≡ none) ⊎ (is_open j.session ≡ true)

pub is_pending-eq : (s : State) → is_pending s ≡ true → s ≡ pending
is_pending-eq s h = ground arith

module _ (sane : Sane) where
  open sane use {World, Settings, sane_open}

  -- Cancel leaves a sound, canceled job with no session.
  pub cancel_job-IsSound :
      (j : Job Settings) (w : World)
      → IsSound (cancel_job sane (j, w)).0
        × ((cancel_job sane (j, w)).0.state ≡ canceled)
        × ((cancel_job sane (j, w)).0.session ≡ none)
  unfolding cancel_job
  cancel_job-IsSound j w =
      ground (arith, session-close_session sane (put sane (j, w) canceled job_canceled_by_user))

  start_session-Settled :
      (fuel : ℕ) (j : Job Settings) (w : World) (x : At sane)
      → start_session sane fuel (j, w) ≡ ok x
      → Settled true x.0
  unfolding start_session
  start_session-Settled fuel j w x h =
      let ((status, (j', w')), started, rest) = >>=-eq-ok (start_job sane (j, w)) _ h in
      ground (
        arith,
        update_status-Settled sane fuel status j' w' x rest,
        start_job-is_open sane j w started,
      )

  unfoldable pub opened_first : Job Settings → World → At sane
  opened_first j w = elim j.session [
    | none ↦ (open_session sane (record j { state = processing }, w)).1
    | some _ ↦ (record j { state = processing }, w)
  ]

  -- The end of `beginTransfer`.
  unfoldable pub close_unless_processing : At sane → Run (Bool × At sane)
  close_unless_processing x =
      if is_processing (x.0).state then ok (true, x) else ok (false, close_session sane x)

  pub begin_transfer-pending :
      (fuel : ℕ) (j : Job Settings) (w : World)
      → j.state ≡ pending
      → begin_transfer sane fuel (j, w)
        ≡ (start_session sane fuel (opened_first j w) >>= close_unless_processing)
  unfolding begin_transfer opened_first close_unless_processing
  begin_transfer-pending fuel j w p = rw (p, begin_transfer)

  -- If beginTransfer returns for a sound job, it leaves a sound job: one that has its session
  -- open while it processes, has none when it is finished, and never keeps a session whose device
  -- is not open. It answers true for a job that was pending and is now processing with an open
  -- session. For a job that was pending it otherwise answers false and leaves no session; a job
  -- that was not pending it leaves alone.
  pub begin_transfer-IsSound :
      (fuel : ℕ) (j : Job Settings) (w : World) (b : Bool) (x : At sane)
      → IsSound j
      → begin_transfer sane fuel (j, w) ≡ ok (b, x)
      → IsSound x.0
        × (b ≡ true
            → (j.state ≡ pending) × ((x.0).state ≡ processing) × (is_open (x.0).session ≡ true))
        × (b ≡ false → j.state ≡ pending → ((x.0).state ≢ processing) × ((x.0).session ≡ none))
        × (j.state ≢ pending → x ≡ (j, w))
  begin_transfer-IsSound fuel j w b x v h = elim (Bool-cases (is_pending j.state)) [
    | inl p ↦
        let waits : j.state ≡ pending = is_pending-eq j.state p in
        let (y, started, rest) =
          >>=-eq-ok (start_session sane fuel (opened_first j w)) _
            (sym (begin_transfer-pending fuel j w waits) ∙ h) in
        let s = start_session-Settled fuel (opened_first j w).0 (opened_first j w).1 y started in
        unfold close_unless_processing in
        ground (arith, s, rest, waits, session-close_session sane y)
    | inr n ↦ unfold begin_transfer in ground (arith, n)
  ]

  -- beginTransfer of a pending job that has no session starts a scan on a null handle when the
  -- device cannot be opened.
  pub begin_transfer-crash :
      (fuel : ℕ) (j : Job Settings) (w : World)
      → j.state ≡ pending
      → j.session ≡ none
      → is_good (sane_open w).0 ≡ false
      → begin_transfer sane fuel (j, w) ≡ crash
  unfolding start_session start_job start open_session new_session opened_first
  begin_transfer-crash fuel j w p held bad = begin_transfer-pending fuel j w p ∙ rw (held, bad) refl
