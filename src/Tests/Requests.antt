-- ===== src/Tests/Requests.antt =====
-- The jobs of a scanner and the requests for them: server/scanner.cpp, server/server.cpp and
-- web/httpserver.cpp.
use air_sane.Prelude.{
  ◌+◌, ◌<◌, ◌≤◌, ◌≡◌, refl, true, false, List, [], ◌∷◌, ◌++◌, none, some, arith, length, drop,
}
use air_sane.Text.{Bytes, codes, equal, starts_with, find_byte}
use air_sane.ImageEncoder.Trace.{Event}
use air_sane.Sane.{jammed, ok}
use air_sane.ScanJob.{Job, canceled}
use air_sane.ScanJob.Status.{cancel_job}
use air_sane.Scanner.{Scanner, Jobs, Tickets, find_job, cancel_job_at, purge_jobs}
use air_sane.Scanner.Jobs.{cancel_job_at-cancels}
use air_sane.Scanner.Purging.{clock_behind, purge_jobs-at}
use air_sane.Scanner.Status.{job_uri}
use air_sane.Http.{Response}
use air_sane.Server.{
  Request, Pages, Exchange, reply, next_document, handle_job, handle_jobs, handle_scanner_request,
}
use air_sane.Server.Dispatch.{handle_scanner_request-job_uri}
use air_sane.Server.Frame.{Names, handle_scanner_request-spares}
use air_sane.Tests.Device.{device, stream, average}
use air_sane.Tests.Jobs.{waiting, loaded}

abbrev pub tickets : Tickets device
tickets = record {
  draw = λ w. (codes "7", w);
  blank = waiting;
  init = λ xml autoselect j. record j { res_dpi = length xml };
}

abbrev jobs : Jobs Unit
jobs = (codes "1", waiting) ∷ []

cancel_job_at-cancels_example :
    (find_job jobs (codes "1") ≡ none
      → cancel_job_at device (codes "1") (jobs, loaded) ≡ (false, jobs, loaded))
    × ((j : Job Unit)
        → find_job jobs (codes "1") ≡ some j
        → ((cancel_job_at device (codes "1") (jobs, loaded)).0 ≡ true)
          × (find_job (cancel_job_at device (codes "1") (jobs, loaded)).1 (codes "1")
              ≡ some (cancel_job device (j, loaded)).0)
          × ((cancel_job device (j, loaded)).0.state ≡ canceled)
          × ((cancel_job device (j, loaded)).0.session ≡ none))
    × (equal (codes "1") (codes "2") ≡ false
        → find_job (cancel_job_at device (codes "1") (jobs, loaded)).1 (codes "2")
          ≡ find_job jobs (codes "2"))
cancel_job_at-cancels_example = cancel_job_at-cancels device (codes "1") (codes "2") jobs loaded

abbrev two_jobs : Jobs Unit
two_jobs = (codes "1", waiting) ∷ (codes "2", waiting) ∷ []

purge_jobs-at_example :
    (waiting.last_active + 0 < clock_behind device 0 jobs loaded
      → find_job (purge_jobs device 0 two_jobs loaded).1 (codes "2") ≡ none)
    × (clock_behind device 0 jobs loaded ≤ waiting.last_active + 0
        → find_job (purge_jobs device 0 two_jobs loaded).1 (codes "2") ≡ some waiting)
    × ((other : Bytes)
        → find_job two_jobs other ≡ none
        → find_job (purge_jobs device 0 two_jobs loaded).1 other ≡ none)
    × ((purge_jobs device 0 two_jobs loaded).0 + length (purge_jobs device 0 two_jobs loaded).1 ≡ 2)
unfolding find_job equal
purge_jobs-at_example = purge_jobs-at device 0 (codes "2") waiting jobs [] loaded (refl, (refl, tt))

abbrev pub pages : Pages (List Event)
pages = record {
  show = λ n. codes "0";
  show_status = λ n. codes "200";
  write = λ text s. s;
  scanner_page = λ r. r;
  icon = none;
  capabilities = [];
}

abbrev pub scanner : Scanner Unit
scanner = record { uri = codes "/s"; has_adf = true; jobs = jobs; temporary_adf_status = jammed }

abbrev response : Response (List Event)
response = record {
  status = 200;
  headers = [];
  sent = false;
  chunked = false;
  head = [];
  stream = [];
}

abbrev nothing : Bytes
nothing = []

abbrev get : Request
get = record { method = codes "GET"; uri = []; user_agent = []; content = [] }

handle_scanner_request-job_uri_example :
    (equal get.method (codes "GET") ≡ true
      → handle_scanner_request device stream average tickets pages 6 true false
          (drop 2 (job_uri pages.show scanner waiting ++ codes "/NextDocument"))
          get
          (scanner, loaded, response)
        ≡ next_document device stream average tickets pages 6
            (codes "1")
            waiting
            (scanner, loaded, response))
    × (equal get.method (codes "DELETE") ≡ true
        → handle_scanner_request device stream average tickets pages 6 true false
            (drop 2 (job_uri pages.show scanner waiting))
            get
            (scanner, loaded, response)
          ≡ reply device stream average tickets pages 200 (
            record scanner { jobs = (cancel_job_at device (codes "1") (jobs, loaded)).1 },
            (cancel_job_at device (codes "1") (jobs, loaded)).2,
            response,
          ))
unfolding equal find_job
handle_scanner_request-job_uri_example =
    handle_scanner_request-job_uri device stream average tickets pages 6 true false waiting get
      scanner loaded response refl (refl, tt)

abbrev delete : Request
delete = record { method = codes "DELETE"; uri = []; user_agent = []; content = [] }

abbrev exchange : Exchange device stream average tickets pages
exchange = (scanner, loaded, response)

handle_scanner_request-delete :
    handle_scanner_request device stream average tickets pages 6 true false
      (codes "/ScanJobs/2")
      delete
      exchange
    ≡ ok exchange
unfolding handle_scanner_request handle_jobs handle_job equal starts_with find_byte cancel_job_at
    find_job
handle_scanner_request-delete = refl

not_named : Names (codes "/ScanJobs/2") (codes "1") → ⊥
not_named (rest, e) = ground (arith, e)

handle_scanner_request-spares_example : find_job (exchange.0).jobs (codes "1") ≡ some waiting
unfolding equal find_job
handle_scanner_request-spares_example =
    handle_scanner_request-spares device stream average tickets pages 6 true false
      (codes "/ScanJobs/2") delete (codes "1") waiting exchange exchange
      handle_scanner_request-delete not_named refl
