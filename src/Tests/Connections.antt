-- ===== src/Tests/Connections.antt =====
-- Requests, chunks and connections: web/httpserver.cpp and server/server.cpp.
use air_sane.Prelude.{
  ℕ, ◌+◌, ◌<◌, ◌≡◌, refl, true, false, List, [], ◌∷◌, ◌++◌, some, arith, length, inr, ◌⊎◌,
}
use air_sane.Prelude.Int.{pos}
use air_sane.Text.{Bytes, codes, equal, find, find_byte, starts_with}
use air_sane.Sane.{Run, ok, crash}
use air_sane.AccessFile.{Sockaddr, inet, is_allowed}
use air_sane.Http.{Response, new_response, to_relative_url, is_space, ctolower, header}
use air_sane.Dictionary
use air_sane.Dictionary.{get_string}
use air_sane.Http.Chunks.{Action, put, flush, act_all, said, new_chunkstream, close, tell}
use air_sane.Http.Chunks.Reading.{read_chunks, read_chunks-close}
use air_sane.Http.Request.{
  Message, get_lines, request_line, read_word, read_headers, header_entry, read_request,
}
use air_sane.Http.Request.Reading.{request_text, read_request-text, IsHeader}
use air_sane.Http.Serving.{Served, handle_request, handle_request-Served}
use air_sane.ScanJob.{is_finished}
use air_sane.Scanner.{Scanner, find_job}
use air_sane.ImageEncoder.Trace.{Event}
use air_sane.Server.{Options}
use air_sane.Server.Connections.{serve_request, handle_request-document}
use air_sane.Tests.Device.{Feeder, device, finite_device, stream, average}
use air_sane.Tests.Jobs.{waiting, loaded, stream-Closes}
use air_sane.Tests.Requests.{tickets, pages, scanner}

abbrev actions : List Action
actions = put (codes "ab") ∷ flush ∷ flush ∷ put (codes "c") ∷ []

read_chunks-close_example :
    (tail : Bytes) × ((close (act_all actions (new_chunkstream (codes "H")))).out
      ≡ codes "H" ++ tail)
    × ((fuel : ℕ) → length actions + 1 < fuel → read_chunks fuel tail ≡ some (said actions))
    × (tell (act_all actions (new_chunkstream (codes "H"))) ≡ length (said actions))
read_chunks-close_example = read_chunks-close actions (codes "H") (omega arith)

abbrev posted : Message
posted = record {
  method = codes "POST";
  uri = codes "/x";
  protocol = codes "HTTP/1.1";
  headers = (codes "host", codes "me") ∷ (codes "content-length", codes "3") ∷ [];
  valid = true;
  rest = codes "a=1";
}

read_request-text_example : read_request (request_text posted) ≡ record posted { valid = true }
unfolding is_space ctolower air_sane.Dictionary.find
read_request-text_example =
    read_request-text posted (ground arith, refl) (ground arith, refl) (ground arith, refl)
      (header_host, (header_length, tt)) (refl, (refl, tt))
  where
    header_host : IsHeader (codes "host") (codes "me")
    header_host = record {
      solid_key = ground arith;
      lower_key = refl;
      no_colon = ground arith;
      solid_value = ground arith;
    }

    header_length : IsHeader (codes "content-length") (codes "3")
    header_length = record {
      solid_key = ground arith;
      lower_key = refl;
      no_colon = ground arith;
      solid_value = ground arith;
    }

no_colon : (read_request (codes "GET / HTTP/1.1\r\nhost\r\n\r\n")).valid ≡ false
unfolding read_request get_lines request_line read_word read_headers header_entry equal is_space
    find_byte
no_colon = refl

missing_path : to_relative_url (codes "http://host") ≡ crash
unfolding to_relative_url find find_byte
missing_path = refl

-- A handler that counts the requests, and answers none of them.
abbrev count : Message → ℕ × Response Bytes → Run (ℕ × Response Bytes)
count m (x, r) = ok (x + 1, r)

abbrev anyone : Sockaddr
anyone = record { family = inet; data_bytes = 127 ∷ 0 ∷ 0 ∷ 1 ∷ [] }

handle_request-Served_example :
    Served
      (λ n. codes "7")
      (λ s t. t ++ s)
      count
      []
      anyone
      (request_text posted)
      (0, [])
      1
      (new_response [])
unfolding new_response header get_string
handle_request-Served_example =
    handle_request-Served (λ n. codes "7") (λ s t. t ++ s) count [] anyone (request_text posted) 0 1
      [] (new_response []) (λ _. refl) (λ _. (tt, refl))

abbrev options : Options (List Event)
options = record {
  web = true;
  reset = true;
  base_path = codes "/b";
  main_page = λ r. r;
  reset_page = λ r. r;
}

abbrev next_input : Bytes
next_input = codes "GET /b/s/ScanJobs/1/NextDocument HTTP/1.1\r\n\r\n"

-- A scanner that is asked before the one that the request is for.
abbrev earlier : Scanner Unit
earlier = record scanner { uri = codes "/t" }

handle_request-document_example :
    (s' : Scanner Unit) × (w' : Feeder) × (r' : Response (List Event)) × (handle_request
        pages.show_status pages.write
        (serve_request device stream average tickets pages (λ n. pos 0) 6 options (λ n. false))
        []
        anyone
        next_input
        ((earlier ∷ scanner ∷ [], loaded), [])
      ≡ ok (some ((earlier ∷ s' ∷ [], w'), r')))
    × (r'.sent ≡ true)
    × (is_finished waiting.state ≡ true → r'.status ≡ 404)
    × (is_finished waiting.state ≡ false
        → (r'.status ≡ 200) ⊎ ((r'.status ≡ 409) ⊎ (r'.status ≡ 503)))
unfolding read_request get_lines request_line read_word read_headers is_space equal starts_with
    find_job is_allowed
handle_request-document_example =
    handle_request-document device stream average tickets pages (λ n. pos 0) 6 options (λ n. false)
      finite_device [] anyone next_input (codes "1") (earlier ∷ []) [] scanner waiting loaded []
      refl refl refl refl (refl, tt) refl (refl, tt) (inr (refl, refl)) (omega arith) refl
      stream-Closes
