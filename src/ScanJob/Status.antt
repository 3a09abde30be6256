-- ===== src/ScanJob/Status.antt =====
-- `updateStatus` and the functions around the session.
use air_sane.Prelude.{ℕ, zero, suc, Bool, true, false, ◌&&◌, ltb, if◌then◌else◌, none, some}
use air_sane.Sane.{
  SaneStatus, good, unsupported, cancelled, device_busy, inval, eof, jammed, no_docs, cover_open,
  io_error, no_mem, access_denied, other, Sane, Run, ok, out_of_fuel, crash, ◌>>=◌,
}
use air_sane.Sane.Session.{start, cancel, destroy, new_session, is_good}
use air_sane.ScanJob.{
  State, aborted, canceled, completed, pending, processing, Kind, single, adf_single, adf_concat,
  Reason, none_given, resources_are_not_ready, job_scanning, job_completed_successfully,
  job_canceled_by_user, invalid_scan_ticket, document_permission_error, errors_detected,
  is_processing, is_pending, is_aborted, Job,
}

abbrev pub is_adf : Kind → Bool
is_adf single = false
is_adf adf_single = true
is_adf adf_concat = true

module _ (sane : Sane) where
  open sane use {World, Settings, configure}

  abbrev pub At : Type 0
  At = Job Settings × World

  abbrev pub put : At → State → Reason → At
  put (j, w) s r = (record j { state = s; reason = r }, w)

  abbrev pub put_adf : SaneStatus → At → At
  put_adf status (j, w) = (record j { adf_status = status }, w)

  unfoldable pub close_session : At → At
  unfolding cancel destroy
  close_session (j, w) = elim j.session [
    | none ↦ (j, w)
    | some s ↦ (record j { session = none }, destroy sane s (cancel sane s w))
  ]

  -- `mpSession->start().status()`.
  unfoldable pub start_job : At → Run (SaneStatus × At)
  unfolding start
  start_job (j, w) = elim j.session [
    | none ↦ crash
    | some s ↦ do (s', w') ← start sane s w; ok (s'.status, (record j { session = some s' }, w'))
  ]

  -- The end of a page. `again` is `updateStatus` itself.
  unfoldable pub on_eof : (SaneStatus → At → Run At) → Kind → At → Run At
  on_eof again single (j, w) = ok (
      close_session (
        if ltb 0 j.images_completed
        then put (j, w) completed job_completed_successfully
        else put (j, w) pending none_given))
  on_eof again adf_single x = ok (put x pending none_given)
  on_eof again adf_concat x = start_job x >>= λ r. again r.0 r.1

  -- The switch of `updateStatus`.
  unfoldable pub on_status : (SaneStatus → At → Run At) → SaneStatus → At → Run At
  unfolding on_eof
  on_status again good x = ok (put x processing job_scanning)
  on_status again inval x = ok (put x aborted invalid_scan_ticket)
  on_status again device_busy x = ok (put x aborted resources_are_not_ready)
  on_status again io_error x = ok (put x aborted resources_are_not_ready)
  on_status again no_mem x = ok (put x aborted resources_are_not_ready)
  on_status again access_denied x = ok (put x aborted document_permission_error)
  on_status again jammed x = ok (put_adf jammed (put x aborted resources_are_not_ready))
  on_status again cover_open x = ok (put_adf cover_open (put x aborted resources_are_not_ready))
  on_status again cancelled x = ok (put x aborted job_canceled_by_user)
  on_status again eof x = on_eof again (x.0).kind x
  on_status again no_docs (j, w) = ok (
      close_session (
        put_adf no_docs (
          if ltb 0 j.images_completed && is_adf j.kind
          then put (j, w) completed job_completed_successfully
          else put (j, w) aborted resources_are_not_ready)))
  on_status again unsupported x = ok (put x aborted errors_detected)
  on_status again (other n) x = ok (put x aborted errors_detected)

  abbrev pub close_if_aborted : At → At
  close_if_aborted (j, w) = if is_aborted j.state then close_session (j, w) else (j, w)

  -- The fuel is for the pages of a feeder that end at once.
  unfoldable pub update_status : ℕ → SaneStatus → At → Run At
  unfolding on_status
  update_status zero status x = out_of_fuel
  update_status (suc fuel) status x = do
    y ← on_status (update_status fuel) status (put_adf good x)
    ok (close_if_aborted y)

  -- `openSession`, with the options behind `configure`.
  unfoldable pub open_session : At → SaneStatus × At
  unfolding new_session
  open_session (j, w) =
      let (s, w') = new_session sane w in
      if is_good s.status
      then (let (taken, w'') = configure j.settings w' in
          (if taken then good else inval, (record j { session = some s }, w'')))
      else (s.status, (record j { session = some s }, w'))

  unfoldable pub start_session : ℕ → At → Run At
  unfolding start_job update_status
  start_session fuel x = start_job x >>= λ r. update_status fuel r.0 r.1

  -- `beginTransfer`. What `openSession` answers is only used to log the options.
  unfoldable pub begin_transfer : ℕ → At → Run (Bool × At)
  unfolding open_session start_session close_session
  begin_transfer fuel (j, w) =
      if is_pending j.state
      then (let held = record j { state = processing } in
          do
            x ←
                start_session fuel
                  (elim j.session [ none ↦ (open_session (held, w)).1 | some _ ↦ (held, w) ])
            if is_processing (x.0).state then ok (true, x) else ok (false, close_session x))
      else ok (false, (j, w))

  unfoldable pub cancel_job : At → At
  unfolding close_session
  cancel_job x = close_session (put x canceled job_canceled_by_user)
