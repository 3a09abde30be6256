-- ===== src/Server/Dispatch.antt =====
-- Requests for a job (server/server.cpp): where its uri leads, and that its next document is answered.
use air_sane.Prelude.{
  ℕ, ◌≡◌, refl, ap, ◌∙◌, Bool, true, [], ◌++◌, some, append_assoc, drop, take, length,
  drop-length-append, take-length-append,
}
use air_sane.Text.{
  Bytes, codes, equal, equal_refl, find_byte, find_byte-append, find_byte-Lacks, Lacks, starts_with,
}
use air_sane.Sane.{Sane}
use air_sane.ScanJob.{Job}
use air_sane.ScanJob.Pixels.{Floats}
use air_sane.ScanJob.Transfer.{Output}
use air_sane.Scanner.{Scanner, Tickets, find_job, cancel_job_at}
use air_sane.Scanner.Jobs.{cancel_job_at-cancels}
use air_sane.Scanner.Status.{job_uri}
use air_sane.Http.{Response}
use air_sane.Server.{
  Request, Pages, Exchange, reply, next_document, handle_job, handle_jobs, handle_scanner_request,
}

module _ (sane : Sane) (output : Output) (floats : Floats) (tickets : Tickets sane)
    (pages : Pages output.Sink) where
  open sane use {World, Settings}
  open output use {Sink}
  open pages use {show}

  -- A path below the directory of the jobs.
  pub handle-job_path :
      (fuel : ℕ) (web opened : Bool) (res : Bytes) (q : Request)
      (x : Exchange sane output floats tickets pages)
      → handle_scanner_request sane output floats tickets pages fuel web opened
          (codes "/ScanJobs/" ++ res)
          q
          x
        ≡ handle_job sane output floats tickets pages fuel res q x
  unfolding handle_scanner_request handle_jobs equal starts_with
  handle-job_path fuel web opened res q (s, w, r) = refl

  pub handle_job-document :
      (fuel : ℕ) (key : Bytes) (j : Job Settings) (q : Request) (s : Scanner Settings) (w : World)
      (r : Response Sink)
      → find_job s.jobs key ≡ some j
      → Lacks b'/' key
      → equal q.method (codes "GET") ≡ true
      → handle_job sane output floats tickets pages fuel (key ++ codes "/NextDocument") q (s, w, r)
        ≡ next_document sane output floats tickets pages fuel key j (s, w, r)
  unfolding handle_job
  handle_job-document fuel key j q s w r found lacks get =
      let slash : find_byte b'/' (key ++ codes "/NextDocument") ≡ some (length key) =
        find_byte-append b'/' key (codes "NextDocument") lacks in
      let name : take (length key) (key ++ codes "/NextDocument") ≡ key =
        take-length-append key _ in
      let rest : drop (length key) (key ++ codes "/NextDocument") ≡ codes "/NextDocument" =
        drop-length-append key _ in
      let same : equal (codes "/NextDocument") (codes "/NextDocument") ≡ true = equal_refl _ in
      rw (slash, handle_job)
        (rw (rest, handle_job)
          (rw (same, get)
            (rw name (
              rw found (
                ap (λ k. next_document sane output floats tickets pages fuel k j (s, w, r))
                  name)))))

  handle_job-cancel :
      (fuel : ℕ) (key : Bytes) (q : Request) (s : Scanner Settings) (w : World) (r : Response Sink)
      → (cancel_job_at sane key (s.jobs, w)).0 ≡ true
      → Lacks b'/' key
      → equal q.method (codes "DELETE") ≡ true
      → handle_job sane output floats tickets pages fuel key q (s, w, r)
        ≡ reply sane output floats tickets pages 200 (
          record s { jobs = (cancel_job_at sane key (s.jobs, w)).1 },
          (cancel_job_at sane key (s.jobs, w)).2,
          r,
        )
  unfolding handle_job
  handle_job-cancel fuel key q s w r found lacks delete =
      rw (find_byte-Lacks b'/' key lacks, handle_job) (rw (delete, found))

  -- The uri of a job whose uuid has no slash leads back to the job: behind the uri of the
  -- scanner, a GET of it with "/NextDocument" asks for the next document of that job, and a
  -- DELETE of it cancels that job and is answered with status 200.
  pub handle_scanner_request-job_uri :
      (fuel : ℕ) (web opened : Bool) (j : Job Settings) (q : Request) (s : Scanner Settings)
      (w : World) (r : Response Sink)
      → find_job s.jobs j.uuid ≡ some j
      → Lacks b'/' j.uuid
      → (equal q.method (codes "GET") ≡ true
          → handle_scanner_request sane output floats tickets pages fuel web opened
              (drop (length s.uri) (job_uri show s j ++ codes "/NextDocument"))
              q
              (s, w, r)
            ≡ next_document sane output floats tickets pages fuel j.uuid j (s, w, r))
        × (equal q.method (codes "DELETE") ≡ true
            → handle_scanner_request sane output floats tickets pages fuel web opened
                (drop (length s.uri) (job_uri show s j))
                q
                (s, w, r)
              ≡ reply sane output floats tickets pages 200 (
                record s { jobs = (cancel_job_at sane j.uuid (s.jobs, w)).1 },
                (cancel_job_at sane j.uuid (s.jobs, w)).2,
                r,
              ))
  unfolding job_uri
  handle_scanner_request-job_uri fuel web opened j q s w r found lacks =
      let below : drop (length s.uri) (job_uri show s j ++ codes "/NextDocument")
          ≡ codes "/ScanJobs/" ++ (j.uuid ++ codes "/NextDocument") =
        rw (append_assoc s.uri (codes "/ScanJobs/" ++ j.uuid) (codes "/NextDocument"))
          (drop-length-append s.uri _) in
      let itself : drop (length s.uri) (job_uri show s j) ≡ codes "/ScanJobs/" ++ j.uuid =
        drop-length-append s.uri _ in
      (
        λ get. rw below (
            handle-job_path fuel web opened (j.uuid ++ codes "/NextDocument") q (s, w, r)
            ∙ handle_job-document fuel j.uuid j q s w r found lacks get),
        λ delete. rw itself (
            handle-job_path fuel web opened j.uuid q (s, w, r)
            ∙ handle_job-cancel fuel j.uuid q s w r
                ((cancel_job_at-cancels sane j.uuid [] s.jobs w).1 j found).0 lacks delete),
      )
