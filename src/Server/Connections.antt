-- ===== src/Server/Connections.antt =====
-- A connection that asks for the next document of a job: `handleRequest` of web/httpserver.cpp with
-- the `onRequest` of server/server.cpp as its handler.
use air_sane.Prelude.{
  ℕ, ◌+◌, ◌<◌, ◌≡◌, refl, ap, ◌∙◌, Bool, true, false, List, [], ◌∷◌, ◌++◌, none, some, ◌⊎◌, inl,
  inr, arith, Bool-cases, drop, length, length-append, drop-length-append,
}
use air_sane.Prelude.Int.{ℤ}
use air_sane.Text.{Bytes, codes, equal, equal_iff, Lacks, starts_with, starts_with-append}
use air_sane.Dictionary.{get_string}
use air_sane.Sane.{Sane, Run, ok, ◌>>=◌}
use air_sane.Sane.Session.{is_good}
use air_sane.AccessFile.{Entry, Sockaddr, is_allowed}
use air_sane.ScanJob.{Job, is_finished}
use air_sane.ScanJob.Sessions.{is_open}
use air_sane.ScanJob.Reading.{IsFinite}
use air_sane.ScanJob.Pixels.{Floats}
use air_sane.ScanJob.Transfer.{Output}
use air_sane.ScanJob.Finish.{Closes}
use air_sane.Scanner.{Scanner, Tickets, find_job}
use air_sane.Http.{Response, new_response, header, ctolower}
use air_sane.Http.Request.{Message, read_request, request_header, content}
use air_sane.Http.Serving.{handle_request, handle_request-handled}
use air_sane.Server.{
  Request, Pages, Options, handle_scanner_request, front_pages, on_scanners, on_request,
}
use air_sane.Server.Dispatch.{handle-job_path, handle_job-document}
use air_sane.Server.Answers.{IsNew, next_document-ends}

-- What the server asks of a request. `number` is `strtod` on the content length.
unfoldable pub request_of : (Bytes → ℤ) → Message → Request
request_of number m = record {
  method = m.method;
  uri = m.uri;
  user_agent = request_header (codes "user-agent") m;
  content = content number m;
}

equal-longer : (s t : Bytes) → length t < length s → equal s t ≡ false
equal-longer s t longer = elim (Bool-cases (equal s t)) [
  | inl same ↦ absurd (omega (arith, longer, ap length ((equal_iff s t).0 same)))
  | inr other ↦ other
]

module _ (sane : Sane) (output : Output) (floats : Floats) (tickets : Tickets sane)
    (pages : Pages output.Sink) (number : Bytes → ℤ) (fuel : ℕ) (o : Options output.Sink)
    (opened : Bytes → Bool) where
  open sane use {World, Settings, sane_open}
  open output use {Sink, stream_ok}
  open pages use {show_status, write}

  abbrev pub Scanners : Type 0
  Scanners = List (Scanner Settings)

  -- The handler of the server, which keeps its scanners and the backend.
  unfoldable pub serve_request :
      Message → (Scanners × World) × Response Sink → Run ((Scanners × World) × Response Sink)
  unfolding request_of
  serve_request m ((ss, w), r) = do
    (ss', w', r') ←
        on_request sane output floats tickets pages fuel o opened (request_of number m) ss (w, r)
    ok ((ss', w'), r')

  -- The uri of no scanner in the list is in front of the uri.
  abbrev pub Passes : Bytes → Scanners → Type 0
  Passes uri [] = Unit
  Passes uri (s ∷ ss) = (starts_with uri (o.base_path ++ s.uri) ≡ false) × Passes uri ss

  on_scanners-reaches :
      (q : Request) (before after : Scanners) (s s' : Scanner Settings) (w w' : World)
      (r r' : Response Sink) (rest : Bytes)
      → q.uri ≡ (o.base_path ++ s.uri) ++ rest
      → Passes q.uri before
      → handle_scanner_request sane output floats tickets pages fuel o.web
          (opened s.uri)
          rest
          q
          (s, w, r)
        ≡ ok (s', w', r')
      → on_scanners sane output floats tickets pages fuel o opened q (before ++ s ∷ after) (w, r)
        ≡ ok (before ++ s' ∷ after, w', r')
  unfolding on_scanners
  on_scanners-reaches q [] after s s' w w' r r' rest leads passes handled =
      let first : starts_with q.uri (o.base_path ++ s.uri) ≡ true =
        rw leads (starts_with-append (o.base_path ++ s.uri) rest) in
      let behind : drop (length (o.base_path ++ s.uri)) q.uri ≡ rest =
        rw leads (drop-length-append (o.base_path ++ s.uri) rest) in
      rw first (rw behind (rw handled refl))
  on_scanners-reaches q (p ∷ before) after s s' w w' r r' rest leads (other, passes) handled =
      rw other
        (rw (on_scanners-reaches q before after s s' w w' r r' rest leads passes handled) refl)

  -- A request for a document is for no page of the web interface.
  front_pages-passes :
      (q : Request) (t key : Bytes) (r : Response Sink)
      → q.uri ≡ (o.base_path ++ t) ++ (codes "/ScanJobs/" ++ (key ++ codes "/NextDocument"))
      → front_pages sane output floats tickets pages o q r ≡ r
  unfolding front_pages
  front_pages-passes q t key r leads =
      let below = codes "/ScanJobs/" ++ (key ++ codes "/NextDocument") in
      let size = ap length leads ∙ length-append (o.base_path ++ t) below in
      let root : equal q.uri (o.base_path ++ codes "/") ≡ false =
        equal-longer q.uri (o.base_path ++ codes "/") (
          omega
            (arith, size, length-append o.base_path t, length-append o.base_path (codes "/"))) in
      let reset : equal q.uri (codes "/reset") ≡ false =
        equal-longer q.uri (codes "/reset") (omega (arith, size)) in
      ground (arith, root, reset)

  new_response-IsNew : (k : Sink) → IsNew sane output floats tickets pages (new_response k)
  unfolding new_response header ctolower get_string
  new_response-IsNew k = record { distinct = tt; no_encoding = refl }

  -- On a device with finitely much data, a connection is answered whose valid request is a GET of
  -- the base path, the uri of a scanner, "/ScanJobs/", the uuid of one of its jobs and
  -- "/NextDocument", if its address is allowed, its uri does not begin with the base path and the
  -- uri of an earlier scanner, the uuid has no slash, the fuel is greater than what is left to be
  -- read and one, the session of the job is open or it has none while the device can be opened,
  -- the stream is good and stays so when the headers are sent, and the encoder does not throw at
  -- the end of a document. The response is sent with status 404 for a finished job and with 200,
  -- 409 or 503 for another one, and the other scanners are as before.
  pub handle_request-document :
      (fin : IsFinite sane) (entries : List Entry) (address : Sockaddr) (input key : Bytes)
      (before after : Scanners) (s : Scanner Settings) (j : Job Settings) (w : World) (k : Sink)
      → is_allowed entries address ≡ true
      → (read_request input).valid ≡ true
      → equal (read_request input).method (codes "GET") ≡ true
      → (read_request input).uri
        ≡ (o.base_path ++ s.uri) ++ (codes "/ScanJobs/" ++ (key ++ codes "/NextDocument"))
      → Passes (read_request input).uri before
      → find_job s.jobs key ≡ some j
      → Lacks b'/' key
      → (is_open j.session ≡ true) ⊎ ((j.session ≡ none) × (is_good (sane_open w).0 ≡ true))
      → fin.left w + 1 < fuel
      → stream_ok k ≡ true
      → Closes sane output floats fin
      → (s' : Scanner Settings) × (w' : World) × (r' : Response Sink) × (handle_request show_status
            write serve_request entries address input
            ((before ++ s ∷ after, w), k)
          ≡ ok (some ((before ++ s' ∷ after, w'), r')))
        × (r'.sent ≡ true)
        × (is_finished j.state ≡ true → r'.status ≡ 404)
        × (is_finished j.state ≡ false
            → (r'.status ≡ 200) ⊎ ((r'.status ≡ 409) ⊎ (r'.status ≡ 503)))
  unfolding serve_request on_request request_of new_response
  handle_request-document fin entries address input key before after s j w k allowed valid get leads
        passes found lacks session enough good closes =
      let m = read_request input in
      let q = request_of number m in
      let (s', w', r', ends, sent, finished, running) =
        next_document-ends sane output floats tickets pages fin fuel key j s w (new_response k)
          (new_response-IsNew k) session enough good closes in
      let handled =
        handle-job_path sane output floats tickets pages fuel o.web (opened s.uri)
          (key ++ codes "/NextDocument") q (s, w, new_response k)
        ∙ handle_job-document sane output floats tickets pages fuel key j q s w (new_response k)
            found lacks get
        ∙ ends in
      let reached =
        on_scanners-reaches q before after s s' w w' (new_response k) r' _ leads passes handled in
      let served : serve_request m ((before ++ s ∷ after, w), new_response k)
          ≡ ok ((before ++ s' ∷ after, w'), r') =
        rw (front_pages-passes q s.uri key (new_response k) leads) (rw reached refl) in
      (
        s',
        w',
        r',
        handle_request-handled show_status write serve_request entries address input _ _ k r'
            allowed valid served sent,
        sent,
        finished,
        running,
      )
