-- ===== src/ScanJob/Sessions.antt =====
-- When a job holds a session, over `updateStatus`, `beginTransfer` and `cancel`.
use air_sane.Prelude.{
  ℕ, zero, suc, ◌≡◌, ◌≢◌, refl, Bool, true, false, Option, none, some, arith, Option-cases, ◌⊎◌,
  inl, inr, ltb, if◌then◌else◌, ◌&&◌,
}
use air_sane.Sane.{SaneStatus, good, eof, no_docs, Sane, Run, ok, ◌>>=◌, >>=-eq-ok}
use air_sane.Sane.Session.{Session, start, is_good}
use air_sane.ScanJob.{
  none_given, job_completed_successfully, resources_are_not_ready, aborted, canceled, completed,
  pending, processing, Kind, single, adf_single, adf_concat, is_finished, Job,
}
use air_sane.ScanJob.Status.{
  At, is_adf, put, put_adf, close_session, start_job, on_eof, on_status, update_status,
}

abbrev pub is_open : Option Session → Bool
is_open none = false
is_open (some s) = s.has_device

-- What holds of a job after `updateStatus`, if its session was open (`o`) before.
pub record Settled {S : Type 0} (o : Bool) (j : Job S) : Type 0 where
  pub open_while_processing : j.state ≡ processing → is_open j.session ≡ o
  pub closed_when_finished : is_finished j.state ≡ true → j.session ≡ none
  pub kept_or_closed : (j.session ≡ none) ⊎ (is_open j.session ≡ o)
  pub never_canceled : j.state ≢ canceled
  pub adf_when_finished : is_good j.adf_status ≡ false → is_finished j.state ≡ true

module _ (sane : Sane) where
  open sane use {World, Settings}

  start-has_device :
      (s : Session) (w : World) {r : Session × World}
      → start sane s w ≡ ok r
      → ((r.0).has_device ≡ s.has_device) × (s.has_device ≡ true)
  unfolding start
  start-has_device s w h = ground arith

  pub start_job-is_open :
      (j : Job Settings) (w : World) {r : SaneStatus × At sane}
      → start_job sane (j, w) ≡ ok r
      → (is_open (((r.1).0).session) ≡ is_open j.session) × (is_open j.session ≡ true)
  unfolding start_job
  start_job-is_open j w {r} h = elim (Option-cases j.session) [
    | inl e ↦ ground arith
    | inr (s, e) ↦
        let opened : (start sane s w >>= λ q.
        ok ((q.0).status, (record j { session = some q.0 }, q.1)))
            ≡ ok r =
          rw (e, start_job) at h in
        let (q, started, rest) = >>=-eq-ok (start sane s w) _ opened in
        ground (arith, start-has_device s w started)
  ]

  pub session-close_session :
      (x : At sane) → (close_session sane x).0 ≡ record x.0 { session = none }
  unfolding close_session
  session-close_session (j, w) = elim (Option-cases j.session) [
    | inl e ↦ rw (e, close_session) (ground arith)
    | inr (s, e) ↦ rw (e, close_session)
  ]

  -- The same before a job that was aborted gives up its session.
  record Judged (o : Bool) (j : Job Settings) : Type 0 where
    open_while_processing : j.state ≡ processing → is_open j.session ≡ o
    closed_when_completed : j.state ≡ completed → j.session ≡ none
    kept_or_closed : (j.session ≡ none) ⊎ (is_open j.session ≡ o)
    never_canceled : j.state ≢ canceled
    adf_when_finished : is_good j.adf_status ≡ false → is_finished j.state ≡ true

  on_eof-Judged :
      (again : SaneStatus → At sane → Run (At sane))
      → ((status : SaneStatus) (j : Job Settings) (w : World) (x : At sane)
          → again status (j, w) ≡ ok x
          → Settled (is_open j.session) x.0)
      → (k : Kind) (j : Job Settings) (w : World) (x : At sane) → is_good j.adf_status ≡ true
      → on_eof sane again k (j, w) ≡ ok x
      → Judged (is_open j.session) x.0
  unfolding on_eof
  on_eof-Judged again ih single j w x a h = ground (
    arith,
    session-close_session (
        if ltb 0 j.images_completed
        then put sane (j, w) completed job_completed_successfully
        else put sane (j, w) pending none_given),
  )
  on_eof-Judged again ih adf_single j w x a h = ground arith
  on_eof-Judged again ih adf_concat j w x a h =
      let ((status, (j', w')), started, rest) = >>=-eq-ok (start_job sane (j, w)) _ h in
      ground (arith, ih status j' w' x rest, start_job-is_open j w started)

  on_status-Judged :
      (again : SaneStatus → At sane → Run (At sane))
      → ((status : SaneStatus) (j : Job Settings) (w : World) (x : At sane)
          → again status (j, w) ≡ ok x
          → Settled (is_open j.session) x.0)
      → (status : SaneStatus) (j : Job Settings) (w : World) (x : At sane)
      → is_good j.adf_status ≡ true
      → on_status sane again status (j, w) ≡ ok x
      → Judged (is_open j.session) x.0
  unfolding on_status
  on_status-Judged again ih eof j w x a h = on_eof-Judged again ih j.kind j w x a h
  on_status-Judged again ih no_docs j w x a h = ground (
    arith,
    session-close_session (
        put_adf sane no_docs (
          if ltb 0 j.images_completed && is_adf j.kind
          then put sane (j, w) completed job_completed_successfully
          else put sane (j, w) aborted resources_are_not_ready)),
  )
  on_status-Judged again ih _ j w x a h = ground arith

  -- After updateStatus has returned, a job that is processing has its session open if it was open
  -- before, a job that is finished holds no session, no session changes between open and not
  -- open, no job is canceled by it, and a status of the feeder other than good is kept for
  -- finished jobs only.
  pub update_status-Settled :
      (fuel : ℕ) (status : SaneStatus) (j : Job Settings) (w : World) (x : At sane)
      → update_status sane fuel status (j, w) ≡ ok x
      → Settled (is_open j.session) x.0
  unfolding update_status
  update_status-Settled zero status j w x h = cc
  update_status-Settled (suc fuel) status j w x h =
      let (y, judged, closed) =
        >>=-eq-ok (on_status sane (update_status sane fuel) status (put_adf sane good (j, w))) _
          h in
      let v =
        on_status-Judged (update_status sane fuel) (update_status-Settled fuel) status
          (record j { adf_status = good }) w y refl judged in
      ground (arith, session-close_session y)
