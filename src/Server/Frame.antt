-- ===== src/Server/Frame.antt =====
-- Which jobs a request leaves alone (server/server.cpp).
use air_sane.Prelude.{
  ℕ, ◌≡◌, sym, ap, ◌∙◌, Bool, false, [], ◌∷◌, ◌++◌, some, arith, append-nil, drop, take, length,
  take-append-drop, if◌then◌else◌, Bool-cases, Option-cases, inl, inr, ◌&&◌, ◌||◌, null, ◌==◌,
}
use air_sane.Text.{Bytes, codes, equal, equal_iff, find_byte, starts_with, starts_with_split}
use air_sane.Sane.{Sane, Run, ok, >>=-eq-ok}
use air_sane.ScanJob.{Job}
use air_sane.ScanJob.Pixels.{Floats}
use air_sane.ScanJob.Transfer.{Output}
use air_sane.Scanner.{Tickets, find_job, create_job, cancel_job_at}
use air_sane.Scanner.Jobs.{cancel_job_at-cancels, create_job-spares}
use air_sane.Http.{set_status, set_header}
use air_sane.Server.{
  Request, Pages, Exchange, post_job, handle_job, handle_jobs, handle_scanner_request, jobs_dir,
  client_is_airscan, is_get,
}
use air_sane.Server.Replies.{
  reply-keeps, reply_document-keeps, reply_icon-keeps, reply_status-keeps, next_document-spares,
}

-- The uri of a request names a job.
abbrev pub Names : Bytes → Bytes → Type 0
Names partial key = (rest : Bytes) × (partial ≡ codes "/ScanJobs/" ++ (key ++ rest))

module _ (sane : Sane) (output : Output) (floats : Floats) (tickets : Tickets sane)
    (pages : Pages output.Sink) where
  open sane use {World, Settings}
  open output use {Sink}
  open pages use {show, show_status, write}

  unnamed : (a b : Bytes) → (a ≡ b → ⊥) → equal a b ≡ false
  unnamed a b n = ground (arith, equal_iff a b, n)

  handle_job-spares :
      (fuel : ℕ) (res : Bytes) (q : Request) (key : Bytes) (j : Job Settings)
      (y : Exchange sane output floats tickets pages)
      {z : Exchange sane output floats tickets pages}
      → handle_job sane output floats tickets pages fuel res q y ≡ ok z
      → ((rest : Bytes) → res ≡ key ++ rest → ⊥)
      → find_job (y.0).jobs key ≡ some j
      → find_job (z.0).jobs key ≡ some j
  unfolding handle_job
  handle_job-spares fuel res q key j (s, w, r) {z} h n found =
      elim (Option-cases (find_byte b'/' res)) [
        | inl e ↦
            let other : equal res key ≡ false =
              unnamed res key (λ same. n [] (same ∙ sym (append-nil key))) in
            let spared = (cancel_job_at-cancels sane res key s.jobs w).2 other ∙ found in
            elim (Bool-cases
              (equal q.method (codes "DELETE") && (cancel_job_at sane res (s.jobs, w)).0)) [
                | inl go ↦
                    rw
                      (reply-keeps sane output floats tickets pages 200 _
                        (rw (go, handle_job) at (rw (e, handle_job) at h)))
                      spared
                | inr stay ↦
                    let left_alone : ok (s, w, r) ≡ ok z =
                      rw (stay, handle_job) at (rw (e, handle_job) at h) in
                    ground (arith, left_alone, found)
              ]
        | inr (k, e) ↦
            let other : equal (take k res) key ≡ false =
              unnamed (take k res) key
                (λ same. n (drop k res) (sym (take-append-drop k res) ∙ rw same)) in
            elim (Bool-cases
              (equal (drop k res) (codes "/NextDocument") && equal q.method (codes "GET"))) [
                | inl go ↦ elim (Option-cases (find_job s.jobs (take k res))) [
                  | inl missing ↦
                      let left_alone : ok (s, w, r) ≡ ok z =
                        rw (missing, handle_job) at
                          (rw (go, handle_job) at (rw (e, handle_job) at h)) in
                      ground (arith, left_alone, found)
                  | inr (i, there) ↦
                      next_document-spares sane output floats tickets pages fuel (take k res) key i
                        j (s, w, r)
                        (rw (there, handle_job) at
                          (rw (go, handle_job) at (rw (e, handle_job) at h)))
                        other found
                ]
                | inr stay ↦
                    let left_alone : ok (s, w, r) ≡ ok z =
                      rw (stay, handle_job) at (rw (e, handle_job) at h) in
                    ground (arith, left_alone, found)
              ]
      ]

  handle_jobs-spares :
      (fuel : ℕ) (res : Bytes) (q : Request) (key : Bytes) (j : Job Settings)
      (y : Exchange sane output floats tickets pages)
      {z : Exchange sane output floats tickets pages}
      → handle_jobs sane output floats tickets pages fuel res q y ≡ ok z
      → ((rest : Bytes) → res ≡ b'/' ∷ (key ++ rest) → ⊥)
      → find_job (y.0).jobs key ≡ some j
      → find_job (z.0).jobs key ≡ some j
  unfolding handle_jobs
  handle_jobs-spares fuel [] q key j y h n found = ground (arith, h, found)
  handle_jobs-spares fuel (c ∷ res) q key j y {z} h n found = elim (Bool-cases (c == b'/')) [
    | inl slash ↦
        let is_slash : c ≡ b'/' = ground (arith, slash) in
        handle_job-spares fuel res q key j y (rw (slash, handle_jobs) at h)
          (λ rest same. n rest (ap (λ t. c ∷ t) same ∙ rw is_slash)) found
    | inr other ↦
        let left_alone : ok y ≡ ok z = rw (other, handle_jobs) at h in
        ground (arith, left_alone, found)
  ]

  post_job-spares :
      (fuel : ℕ) (q : Request) (key : Bytes) (j : Job Settings)
      (y : Exchange sane output floats tickets pages)
      {z : Exchange sane output floats tickets pages}
      → post_job sane output floats tickets pages fuel q y ≡ ok z
      → find_job (y.0).jobs key ≡ some j
      → find_job (z.0).jobs key ≡ some j
  unfolding post_job
  post_job-spares fuel q key j (s, w, r) {z} h found =
      let ((named, m, w'), e, rest) =
        >>=-eq-ok (create_job sane tickets fuel q.content (client_is_airscan q) s.jobs w) _ h in
      let spared =
        create_job-spares sane tickets fuel q.content (client_is_airscan q) s.jobs w key j e
          found in
      elim (Option-cases (find_job m named)) [
        | inl missing ↦ absurd (ground (arith, rw (missing, post_job) at rest))
        | inr (i, there) ↦
            rw (reply-keeps sane output floats tickets pages 201 _ (rw (there, post_job) at rest))
              spared
      ]

  -- The requests below the directory of the jobs, and the others that nothing answers.
  handle_rest :
      ℕ
      → Bytes
      → Request
      → Exchange sane output floats tickets pages
      → Run (Exchange sane output floats tickets pages)
  handle_rest fuel partial q x =
      if starts_with partial jobs_dir
      then handle_jobs sane output floats tickets pages fuel (drop (length jobs_dir) partial) q x
      else ok x

  handle_rest-spares :
      (fuel : ℕ) (partial : Bytes) (q : Request) (key : Bytes) (j : Job Settings)
      (y : Exchange sane output floats tickets pages)
      {z : Exchange sane output floats tickets pages}
      → handle_rest fuel partial q y ≡ ok z
      → (Names partial key → ⊥)
      → find_job (y.0).jobs key ≡ some j
      → find_job (z.0).jobs key ≡ some j
  unfolding handle_rest
  handle_rest-spares fuel partial q key j y {z} h n found =
      elim (Bool-cases (starts_with partial jobs_dir)) [
        | inl below ↦
            let parts = starts_with_split partial jobs_dir below in
            handle_jobs-spares fuel (drop (length jobs_dir) partial) q key j y
              (rw (below, handle_rest) at h)
              (λ rest same. n (rest, parts ∙ ap (λ t. jobs_dir ++ t) same)) found
        | inr other ↦
            let left_alone : ok y ≡ ok z = rw (other, handle_rest) at h in
            ground (arith, left_alone, found)
      ]

  -- A request to a scanner that returns leaves every job as it was that its uri does not name,
  -- where the uri names the jobs whose uuid it goes on with behind "/ScanJobs/".
  pub handle_scanner_request-spares :
      (fuel : ℕ) (web opened : Bool) (partial : Bytes) (q : Request) (key : Bytes)
      (j : Job Settings) (y : Exchange sane output floats tickets pages)
      (z : Exchange sane output floats tickets pages)
      → handle_scanner_request sane output floats tickets pages fuel web opened partial q y ≡ ok z
      → (Names partial key → ⊥)
      → find_job (y.0).jobs key ≡ some j
      → find_job (z.0).jobs key ≡ some j
  unfolding handle_scanner_request handle_rest
  handle_scanner_request-spares fuel web opened partial q key j (s, w, r) z h n found =
      elim (Bool-cases ((null partial || equal partial (codes "/")) && web)) [
        | inl page ↦
            let shown : ok (
              s,
              w,
              pages.scanner_page
                  (set_header (codes "content-type") (codes "text/html") (set_status 200 r)),
            )
                ≡ ok z =
              rw (page, handle_scanner_request) at h in
            ground (arith, shown, found)
        | inr p0 ↦ elim (Bool-cases (equal partial (codes "/ScannerIcon") && is_get q)) [
          | inl icon ↦
              rw
                (reply_icon-keeps sane output floats tickets pages (s, w, r)
                  (rw (p0, icon, handle_scanner_request) at h))
                found
          | inr p1 ↦ elim (Bool-cases (equal partial (codes "/ScannerCapabilities") && is_get q)) [
            | inl caps ↦
                rw
                  (reply_document-keeps sane output floats tickets pages _ _ (s, w, r)
                    (rw (p0, p1, caps, handle_scanner_request) at h))
                  found
            | inr p2 ↦ elim (Bool-cases (equal partial (codes "/ScannerStatus") && is_get q)) [
              | inl status ↦
                  rw
                    (reply_status-keeps sane output floats tickets pages opened (s, w, r)
                      (rw (p0, p1, p2, status, handle_scanner_request) at h))
                    found
              | inr p3 ↦
                  elim (Bool-cases (equal partial jobs_dir && equal q.method (codes "POST"))) [
                    | inl post ↦
                        post_job-spares fuel q key j (s, w, r) {z = z}
                          (rw (p0, p1, p2, p3, post, handle_scanner_request) at h) found
                    | inr p4 ↦
                        handle_rest-spares fuel partial q key j (s, w, r) {z = z}
                          (rw (p0, p1, p2, p3, p4, handle_scanner_request) at h) n found
                  ]
            ]
          ]
        ]
      ]
