-- ===== src/ScanJob/Ending.antt =====
-- `updateStatus` (server/scanjob.cpp) on a device with finitely much data.
use air_sane.Prelude.{
  ℕ, zero, suc, ◌+◌, ◌≤◌, ◌<◌, ◌≡◌, ◌≢◌, refl, sym, ap, ◌∙◌, Bool, true, false, some, arith, ◌⊎◌,
  inl, inr, if◌then◌else◌, Bool-cases, ltb, ◌&&◌, ◌||◌,
}
use air_sane.Sane.{
  SaneStatus, good, unsupported, cancelled, device_busy, inval, eof, jammed, no_docs, cover_open,
  io_error, no_mem, access_denied, other, Sane, Run, ok,
}
use air_sane.Sane.Session.{Session, start, is_good}
use air_sane.ScanJob.{
  is_aborted, processing, aborted, completed, pending, errors_detected, Job, Kind, single,
  adf_single, adf_concat, job_completed_successfully, none_given, resources_are_not_ready,
  job_scanning, invalid_scan_ticket, document_permission_error, job_canceled_by_user,
}
use air_sane.ScanJob.Status.{
  At, put, put_adf, is_adf, close_session, close_if_aborted, on_status, on_eof, update_status,
  start_job,
}
use air_sane.ScanJob.Sessions.{session-close_session}
use air_sane.ScanJob.Reading.{IsFinite, IsReady, IsHeld, is_eof, start-total}

or-true : (b : Bool) → b || true ≡ true
or-true b = ground arith

-- Either the end of a page that is followed by another page of the same document, or not.
concat_page :
    (status : SaneStatus) (k : Kind)
    → ((status ≡ eof) × (k ≡ adf_concat)) ⊎ ((is_eof status ≡ false) ⊎ (k ≢ adf_concat))
concat_page eof adf_concat = inl (refl, refl)
concat_page eof single = inr (inr (λ e. cc))
concat_page eof adf_single = inr (inr (λ e. cc))
concat_page status k = inr (inl (ground arith))

module _ (sane : Sane) (fin : IsFinite sane) where
  open sane use {World, Settings}
  open fin use {left}

  -- What `updateStatus` leaves to the loop: either the job is not processing any more, or the
  -- session can be read, and a status other than good was followed by another sheet.
  pub record Goes (status : SaneStatus) (w : World) (x : At sane) : Type 0 where
    pub ready : (x.0).state ≡ processing → IsReady x.0
    pub keeps : (x.0).state ≡ processing → left x.1 ≤ left w
    pub takes : (x.0).state ≡ processing → is_good status ≡ false → left x.1 < left w

  not_processing :
      (status : SaneStatus) (w : World) (x : At sane) → (x.0).state ≢ processing → Goes status w x
  not_processing status w x n = record {
    ready = λ p. absurd (n p);
    keeps = λ p. absurd (n p);
    takes = λ p. absurd (n p);
  }

  close_if_aborted-state : (x : At sane) → (close_if_aborted sane x).0.state ≡ x.0.state
  close_if_aborted-state x = ground (arith, session-close_session sane x)

  not_processing_closed :
      (status : SaneStatus) (w : World) (x : At sane)
      → (x.0).state ≢ processing
      → Goes status w (close_if_aborted sane x)
  not_processing_closed status w x n =
      not_processing status w (close_if_aborted sane x) λ e. n (sym (close_if_aborted-state x) ∙ e)

  on_eof-ends :
      (again : SaneStatus → At sane → Run (At sane)) (k : Kind) (j : Job Settings) (w : World)
      → j.kind ≡ k
      → k ≢ adf_concat
      → (x : At sane) × (on_eof sane again k (j, w) ≡ ok x) × Goes eof w (close_if_aborted sane x)
  unfolding on_eof
  on_eof-ends again single j w e n =
      let x = close_session sane (
        if ltb 0 j.images_completed
        then put sane (j, w) completed job_completed_successfully
        else put sane (j, w) pending none_given) in
      (
        x,
        refl,
        not_processing_closed eof w x (
            ground (
              arith,
              session-close_session sane (
                  if ltb 0 j.images_completed
                  then put sane (j, w) completed job_completed_successfully
                  else put sane (j, w) pending none_given),
            )),
      )
  on_eof-ends again adf_single j w e n = (
    put sane (j, w) pending none_given,
    refl,
    not_processing_closed eof w (put sane (j, w) pending none_given) (λ q. cc),
  )
  on_eof-ends again adf_concat j w e n = absurd (n refl)

  -- The switch, for a kind of job and a status that start no other page.
  on_status-ends :
      (again : SaneStatus → At sane → Run (At sane)) (status : SaneStatus) (j : Job Settings)
      (w : World)
      → IsHeld status j
      → (is_eof status ≡ false) ⊎ (j.kind ≢ adf_concat)
      → (x : At sane) × (on_status sane again status (j, w) ≡ ok x)
        × Goes status w (close_if_aborted sane x)
  unfolding on_status
  on_status-ends again good j w r one = (
    put sane (j, w) processing job_scanning,
    refl,
    record {
      ready = λ _. record {
        session = r.session;
        held = r.held;
        opened = r.opened;
        nonempty = r.nonempty refl;
      };
      keeps = λ _. omega arith;
      takes = λ _ b. cc;
    },
  )
  on_status-ends again eof j w r one = on_eof-ends again j.kind j w refl (ground arith)
  on_status-ends again no_docs j w r one =
      let y = put_adf sane no_docs (
        if ltb 0 j.images_completed && is_adf j.kind
        then put sane (j, w) completed job_completed_successfully
        else put sane (j, w) aborted resources_are_not_ready) in
      let x = close_session sane y in
      (x, refl, not_processing_closed no_docs w x (ground (arith, session-close_session sane y)))
  on_status-ends again inval j w r one =
      let x = put sane (j, w) aborted invalid_scan_ticket in
      (x, refl, not_processing_closed _ w x (λ q. cc))
  on_status-ends again device_busy j w r one =
      let x = put sane (j, w) aborted resources_are_not_ready in
      (x, refl, not_processing_closed _ w x (λ q. cc))
  on_status-ends again io_error j w r one =
      let x = put sane (j, w) aborted resources_are_not_ready in
      (x, refl, not_processing_closed _ w x (λ q. cc))
  on_status-ends again no_mem j w r one =
      let x = put sane (j, w) aborted resources_are_not_ready in
      (x, refl, not_processing_closed _ w x (λ q. cc))
  on_status-ends again access_denied j w r one =
      let x = put sane (j, w) aborted document_permission_error in
      (x, refl, not_processing_closed _ w x (λ q. cc))
  on_status-ends again cancelled j w r one =
      let x = put sane (j, w) aborted job_canceled_by_user in
      (x, refl, not_processing_closed _ w x (λ q. cc))
  on_status-ends again unsupported j w r one =
      let x = put sane (j, w) aborted errors_detected in
      (x, refl, not_processing_closed _ w x (λ q. cc))
  on_status-ends again (other n) j w r one =
      let x = put sane (j, w) aborted errors_detected in
      (x, refl, not_processing_closed _ w x (λ q. cc))
  on_status-ends again jammed j w r one =
      let x = put_adf sane jammed (put sane (j, w) aborted resources_are_not_ready) in
      (x, refl, not_processing_closed _ w x (λ q. cc))
  on_status-ends again cover_open j w r one =
      let x = put_adf sane cover_open (put sane (j, w) aborted resources_are_not_ready) in
      (x, refl, not_processing_closed _ w x (λ q. cc))

  pub start_job-held :
      (s s' : Session) (j : Job Settings) (w w' : World)
      → j.session ≡ some s
      → start sane s w ≡ ok (s', w')
      → start_job sane (j, w) ≡ ok (s'.status, (record j { session = some s' }, w'))
  unfolding start_job
  start_job-held s s' j w w' e started = rw (e, start_job) (rw started)

  eof-Goes :
      (status : SaneStatus) (w w' : World) (x : At sane)
      → left w' ≤ left w
      → (is_good status || is_eof status ≡ true → left w' < left w)
      → Goes status w' x
      → Goes eof w x
  eof-Goes status w w' x le lt g = record {
    ready = g.ready;
    keeps = λ p. omega (arith, g.keeps p);
    takes = λ p _. elim (Bool-cases (is_good status)) [
      | inl ok_status ↦ omega (arith, g.keeps p, lt (rw ok_status))
      | inr bad ↦ omega (arith, g.takes p bad)
    ];
  }

  step_concat :
      (again : SaneStatus → At sane → Run (At sane)) (j : Job Settings) (w : World)
      {r : SaneStatus × At sane}
      → j.kind ≡ adf_concat
      → start_job sane (j, w) ≡ ok r
      → on_status sane again eof (j, w) ≡ again r.0 r.1
  unfolding on_status on_eof
  step_concat again j w k e = ap (λ kind. on_eof sane again kind (j, w)) k ∙ rw e

  update_status-step :
      (fuel : ℕ) (status : SaneStatus) (j : Job Settings) (w : World) (x : At sane)
      → on_status sane (update_status sane fuel) status (record j { adf_status = good }, w) ≡ ok x
      → update_status sane (suc fuel) status (j, w) ≡ ok (close_if_aborted sane x)
  unfolding update_status
  update_status-step fuel status j w x e = rw e

  close_if_aborted-Goes :
      (status : SaneStatus) (w : World) (x : At sane)
      → Goes status w x
      → Goes status w (close_if_aborted sane x)
  close_if_aborted-Goes status w x g = elim (Bool-cases (is_aborted (x.0).state)) [
    | inl a ↦ not_processing_closed status w x (ground (arith, a))
    | inr b ↦ rw b g
  ]

  -- On a device with finitely much data and for a job that holds an open session, whose lines are
  -- not empty if the status is good, updateStatus returns, for any fuel that is positive and, if
  -- the status is that of the end of a page, greater than what is left to be read and one. If the
  -- job is processing then, its session is open and has lines that are not empty, no more is left
  -- to be read than before, and less if the status was not good.
  pub update_status-ends :
      (fuel : ℕ) (status : SaneStatus) (j : Job Settings) (w : World)
      → 0 < fuel
      → (is_eof status ≡ true → left w + 1 < fuel)
      → IsHeld status j
      → (x : At sane) × (update_status sane fuel status (j, w) ≡ ok x) × Goes status w x
  update_status-ends zero status j w z h r = absurd (omega arith)
  update_status-ends (suc fuel) status j w z h r = elim (concat_page status j.kind) [
    | inl (is_end, concat) ↦
        let (s', w', started, d, p, le, lt) = start-total sane fin r.session w r.opened in
        let now : Job Settings = record j { adf_status = good; session = some s' } in
        let (x, again, g) =
          update_status-ends fuel s'.status now w' (ground (arith, h, is_end))
            (λ e. omega (arith, h (rw is_end), lt (rw (e, or-true _))))
            (record { session = s'; held = refl; opened = d; nonempty = p }) in
        (
          close_if_aborted sane x,
          update_status-step fuel status j w x (
              rw is_end (
                step_concat (update_status sane fuel) (record j { adf_status = good }) w concat
                  (start_job-held r.session s' (record j { adf_status = good }) w w' r.held started)
                ∙ again)),
          rw is_end (close_if_aborted-Goes eof w x (eof-Goes s'.status w w' x le lt g)),
        )
    | inr one ↦
        let (x, e, g) =
          on_status-ends (update_status sane fuel) status (record j { adf_status = good }) w
            (record {
              session = r.session;
              held = r.held;
              opened = r.opened;
              nonempty = r.nonempty;
            })
            one in
        (close_if_aborted sane x, update_status-step fuel status j w x e, g)
  ]
