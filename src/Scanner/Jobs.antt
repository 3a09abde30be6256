-- ===== src/Scanner/Jobs.antt =====
-- The map of jobs: creating and canceling.
use air_sane.Prelude.{
  ℕ, zero, suc, ◌≡◌, refl, ap, ◌∙◌, Bool, true, false, [], ◌∷◌, none, some, arith, if◌then◌else◌,
  Option-cases, inl, inr,
}
use air_sane.Text.{Bytes, equal, equal_iff, equal_refl}
use air_sane.Sane.{Sane, ok, >>=-eq-ok}
use air_sane.ScanJob.{canceled, Job}
use air_sane.ScanJob.Status.{cancel_job}
use air_sane.ScanJob.Begin.{cancel_job-IsSound}
use air_sane.Scanner.{
  Jobs, find_job, put_job, Tickets, new_job, unused_uuid, create_job, cancel_job_at,
}

pub find_job-put_job :
    {S : Type 0} (m : Jobs S) (key other : Bytes) (job : Job S)
    → find_job (put_job m key job) other ≡ (if equal key other then some job else find_job m other)
unfolding find_job put_job
find_job-put_job [] key other job = refl
find_job-put_job ((k, j) ∷ m) key other job = ground (
  arith,
  find_job-put_job m key other job,
  equal_iff k key,
  equal_iff k other,
  equal_iff key other,
)

module _ (sane : Sane) (tickets : Tickets sane) where
  open sane use {World, Settings, time}
  open tickets use {draw, init}

  unused_uuid-unused :
      (fuel : ℕ) (m : Jobs Settings) (w : World) (key : Bytes) (w' : World)
      → unused_uuid sane tickets fuel m w ≡ ok (key, w')
      → find_job m key ≡ none
  unfolding unused_uuid
  unused_uuid-unused zero m w key w' h = cc
  unused_uuid-unused (suc fuel) m w key w' h = elim (Option-cases (find_job m (draw w).0)) [
    | inl free ↦ ground (arith, h, free)
    | inr (j, used) ↦ unused_uuid-unused fuel m (draw w).1 key w' (rw (used, unused_uuid) at h)
  ]

  -- The world after a number of draws.
  abbrev pub drawn : ℕ → World → World
  drawn zero w = w
  drawn (suc n) w = drawn n (draw w).1

  pub create_job-spares :
      (fuel : ℕ) (xml : Bytes) (autoselect : Bool) (m : Jobs Settings) (w : World) (other : Bytes)
      (j : Job Settings) {r : Bytes × Jobs Settings × World}
      → create_job sane tickets fuel xml autoselect m w ≡ ok r
      → find_job m other ≡ some j
      → find_job r.1 other ≡ some j
  unfolding create_job
  create_job-spares fuel xml autoselect m w other j h found =
      let ((key, w'), e, rest) = >>=-eq-ok (unused_uuid sane tickets fuel m w) _ h in
      let job = init xml autoselect (new_job sane tickets key w') in
      ground (
        arith,
        rest,
        found,
        unused_uuid-unused fuel m w key w' e,
        find_job-put_job m key other job,
        equal_iff key other,
      )

module _ (sane : Sane) where
  open sane use {World, Settings, time}

  -- cancelJob of an unknown uuid changes nothing and answers false. For a known one it answers
  -- true and leaves a canceled job with no session, and every other job as it was.
  pub cancel_job_at-cancels :
      (key other : Bytes) (m : Jobs Settings) (w : World)
      → (find_job m key ≡ none → cancel_job_at sane key (m, w) ≡ (false, m, w))
        × ((j : Job Settings)
            → find_job m key ≡ some j
            → ((cancel_job_at sane key (m, w)).0 ≡ true)
              × (find_job (cancel_job_at sane key (m, w)).1 key ≡ some (cancel_job sane (j, w)).0)
              × ((cancel_job sane (j, w)).0.state ≡ canceled)
              × ((cancel_job sane (j, w)).0.session ≡ none))
        × (equal key other ≡ false
            → find_job (cancel_job_at sane key (m, w)).1 other ≡ find_job m other)
  unfolding cancel_job_at
  cancel_job_at-cancels key other m w = elim (Option-cases (find_job m key)) [
    | inl e ↦ (
      λ _. rw (e, cancel_job_at),
      λ j found. absurd (ground (arith, e, found)),
      λ _. rw (e, cancel_job_at),
    )
    | inr (i, e) ↦
        let stored = find_job-put_job m key key (cancel_job sane (i, w)).0 in
        let spared = find_job-put_job m key other (cancel_job sane (i, w)).0 in
        (
          λ n. absurd (ground (arith, e, n)),
          λ j found.
              let same : i ≡ j = ground (arith, e, found) in
              let here = cancel_job-IsSound sane j w in
              rw (e, cancel_job_at)
                (
                  refl,
                  stored ∙ rw (equal_refl key) (ap (λ k. some (cancel_job sane (k, w)).0) same),
                  here.1,
                  here.2,
                ),
          λ differs. rw (e, cancel_job_at) (spared ∙ rw differs),
        )
  ]
