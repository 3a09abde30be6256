-- ===== src/Server.antt =====
-- server/server.cpp: which scanner and which operation a request is for, and what it is answered.
-- The pages of the web interface, the icon and the capabilities are the parameter `Pages`. What
-- the server does before it serves is in Server.CommandLine and Server.Startup.
pub mod Dispatch
pub mod Answers
pub mod Connections
pub mod Replies
pub mod Frame
pub mod CommandLine
pub mod Startup
use air_sane.Prelude.{
  ℕ, zero, suc, ◌+◌, ◌&&◌, ◌||◌, Bool, true, false, not, List, [], ◌∷◌, ◌++◌, Option, none, some,
  null, drop, take, length, ◌==◌, if◌then◌else◌,
}
use air_sane.Prelude.Int.{ℤ}
use air_sane.Text.{Bytes, codes, equal, starts_with, find, find_byte}
use air_sane.Sane.{SaneStatus, Sane, Run, ok, out_of_fuel, crash, ◌>>=◌}
use air_sane.Sane.Session.{is_good}
use air_sane.ScanJob.{Job, is_finished}
use air_sane.ScanJob.Status.{At, begin_transfer}
use air_sane.ScanJob.Pixels.{Floats}
use air_sane.ScanJob.Transfer.{Output, finish_transfer}
use air_sane.Scanner.{Scanner, Jobs, Tickets, find_job, put_job, create_job, cancel_job_at}
use air_sane.Scanner.Status.{job_uri, write_scanner_status}
use air_sane.Http.{Response, set_status, set_header, send, transfer_encoding}

pub record Request : Type 0 where
  pub method : Bytes
  pub uri : Bytes
  pub user_agent : Bytes
  pub content : Bytes

unfoldable pub client_is_airscan : Request → Bool
client_is_airscan q = elim (find (codes "AirScanScanner") q.user_agent) [
  | none ↦ false
  | some _ ↦ true
]

-- The documents that are rendered elsewhere, and `write`, the output of a string to a stream.
-- `icon` is the icon file, if it can be opened.
pub record Pages (S : Type 0) : Type 0 where
  pub show : ℤ → Bytes
  pub show_status : ℕ → Bytes
  pub write : Bytes → S → S
  pub scanner_page : Response S → Response S
  pub icon : Option Bytes
  pub capabilities : Bytes

abbrev pub jobs_dir : Bytes
jobs_dir = codes "/ScanJobs"

abbrev pub is_get : Request → Bool
is_get q = equal q.method (codes "GET")

pub record Options (S : Type 0) : Type 0 where
  pub web : Bool
  pub reset : Bool
  pub base_path : Bytes
  pub main_page : Response S → Response S
  pub reset_page : Response S → Response S

module _ (sane : Sane) (output : Output) (floats : Floats) (tickets : Tickets sane)
    (pages : Pages output.Sink) where
  open sane use {World, Settings, time}
  open output use {Sink}
  open pages use {show, show_status, write, scanner_page, icon, capabilities}

  -- The scanner, its backend, and the response.
  abbrev pub Exchange : Type 0
  Exchange = Scanner Settings × World × Response Sink

  -- The response with a status, once it is sent.
  abbrev pub reply : ℕ → Exchange → Run Exchange
  reply n (s, w, r) = do r' ← send show_status (set_status n r); ok (s, w, r')

  -- A document of a type, and the status 200.
  unfoldable pub reply_document : Bytes → Bytes → Exchange → Run Exchange
  reply_document type text (s, w, r) = do
    r' ← send show_status (set_header (codes "content-type") type (set_status 200 r))
    ok (s, w, record r' { stream = write text r'.stream })

  unfoldable pub reply_icon : Exchange → Run Exchange
  reply_icon (s, w, r) = elim icon [
    | none ↦ reply 404 (s, w, r)
    | some text ↦ do
      r' ← send show_status (set_header (codes "content-type") (codes "image/png") r)
      ok (s, w, record r' { stream = write text r'.stream })
  ]

  -- The status document, which resets the status of the feeder. `opened` is `isOpen`.
  unfoldable pub reply_status : Bool → Exchange → Run Exchange
  reply_status opened (s, w, r) =
      let (text, s') = write_scanner_status show opened (time w) s in
      reply_document (codes "text/xml") text (s', w, r)

  unfoldable pub post_job : ℕ → Request → Exchange → Run Exchange
  post_job fuel q (s, w, r) = do
    (key, m, w') ← create_job sane tickets fuel q.content (client_is_airscan q) s.jobs w
    elim (find_job m key) [
      | none ↦ crash
      | some j ↦
          reply 201 (record s { jobs = m }, w', set_header (codes "location") (job_uri show s j) r)
    ]

  -- The response is sent before the transfer writes to its stream.
  unfoldable pub send_document : ℕ → Bytes → At sane → Exchange → Run Exchange
  send_document fuel key (j, w) (s, _, r) = do
    r' ← send show_status (
        set_header transfer_encoding (codes "chunked")
          (set_header (codes "content-type") j.document_format (set_status 200 r)))
    (t, x) ← finish_transfer sane output floats fuel r'.stream (j, w)
    ok (record s { jobs = put_job s.jobs key x.0 }, x.1, record r' { stream = t })

  -- What a transfer that has not begun is answered.
  unfoldable pub refuse_document : Bytes → At sane → Exchange → Run Exchange
  refuse_document key (j, w) (s, _, r) =
      let s' = record s { jobs = put_job s.jobs key j } in
      if not (is_good j.adf_status)
      then reply 409 (record s' { temporary_adf_status = j.adf_status }, w, r)
      else reply 503 (s', w, r)

  unfoldable pub next_document : ℕ → Bytes → Job Settings → Exchange → Run Exchange
  next_document fuel key j (s, w, r) =
      let transfer = (do
        (begun, x) ← begin_transfer sane fuel (j, w)
        (if begun then send_document fuel key x (s, w, r) else refuse_document key x (s, w, r))) in
      if is_finished j.state then reply 404 (s, w, r) else transfer

  -- The part behind "/ScanJobs/": a job to cancel, or its next document. A request that nothing
  -- matches is left to the base class, which does nothing.
  unfoldable pub handle_job : ℕ → Bytes → Request → Exchange → Run Exchange
  handle_job fuel res q (s, w, r) = elim (find_byte b'/' res) [
    | none ↦
        let (found, m, w') = cancel_job_at sane res (s.jobs, w) in
        if equal q.method (codes "DELETE") && found
        then reply 200 (record s { jobs = m }, w', r)
        else ok (s, w, r)
    | some n ↦
        if equal (drop n res) (codes "/NextDocument") && equal q.method (codes "GET")
        then elim (find_job s.jobs (take n res)) [
          | none ↦ ok (s, w, r)
          | some j ↦ next_document fuel (take n res) j (s, w, r)
        ]
        else ok (s, w, r)
  ]

  -- The part behind "/ScanJobs", if the uri begins so.
  unfoldable pub handle_jobs : ℕ → Bytes → Request → Exchange → Run Exchange
  handle_jobs fuel [] q x = ok x
  handle_jobs fuel (c ∷ res) q x = if c == b'/' then handle_job fuel res q x else ok x

  -- `handleScannerRequest`.
  unfoldable pub handle_scanner_request :
      ℕ → Bool → Bool → Bytes → Request → Exchange → Run Exchange
  handle_scanner_request fuel web opened partial q (s, w, r) =
      if (null partial || equal partial (codes "/")) && web
      then ok (
        s,
        w,
        scanner_page (set_header (codes "content-type") (codes "text/html") (set_status 200 r)),
      )
      else if equal partial (codes "/ScannerIcon") && is_get q
      then reply_icon (s, w, r)
      else if equal partial (codes "/ScannerCapabilities") && is_get q
      then reply_document (codes "text/xml") capabilities (s, w, r)
      else if equal partial (codes "/ScannerStatus") && is_get q
      then reply_status opened (s, w, r)
      else if equal partial jobs_dir && equal q.method (codes "POST")
      then post_job fuel q (s, w, r)
      else if starts_with partial jobs_dir
      then handle_jobs fuel (drop (length jobs_dir) partial) q (s, w, r)
      else ok (s, w, r)

  -- The web interface, which does not end the handling of the request. The reset page asks the
  -- server to reload, which is not part of the exchange.
  unfoldable pub front_pages : Options Sink → Request → Response Sink → Response Sink
  front_pages o q r =
      if o.web
      then (if equal q.uri (o.base_path ++ codes "/")
          then o.main_page
              (set_header (codes "content-type") (codes "text/html") (set_status 200 r))
          else if equal q.uri (codes "/reset") && o.reset
          then o.reset_page
              (set_header (codes "content-type") (codes "text/html") (set_status 200 r))
          else r)
      else r

  -- The first scanner whose uri the request begins with handles it. `opened` is its `isOpen`.
  unfoldable pub on_scanners :
      ℕ
      → Options Sink
      → (Bytes → Bool)
      → Request
      → List (Scanner Settings)
      → World × Response Sink
      → Run (List (Scanner Settings) × World × Response Sink)
  on_scanners fuel o opened q [] (w, r) = ok ([], w, r)
  on_scanners fuel o opened q (s ∷ ss) (w, r) =
      let place = o.base_path ++ s.uri in
      let here = (do
        (s', w', r') ←
            handle_scanner_request fuel o.web (opened s.uri) (drop (length place) q.uri) q (s, w, r)
        ok (s' ∷ ss, w', r')) in
      let there = (do
        (ss', w', r') ← on_scanners fuel o opened q ss (w, r)
        ok (s ∷ ss', w', r')) in
      if starts_with q.uri place then here else there

  unfoldable pub on_request :
      ℕ
      → Options Sink
      → (Bytes → Bool)
      → Request
      → List (Scanner Settings)
      → World × Response Sink
      → Run (List (Scanner Settings) × World × Response Sink)
  on_request fuel o opened q ss (w, r) = on_scanners fuel o opened q ss (w, front_pages o q r)
