-- ===== src/Http.antt =====
-- web/httpserver.cpp: the headers of requests and responses, and how a response is sent. The child
-- modules have the reading of a request, the chunked stream and the handling of a connection;
-- sockets, threads and the loop that accepts connections are not modelled.
pub mod Chunks
pub mod Request
pub mod Sending
pub mod Serving
use air_sane.Prelude.{
  ℕ, ◌+◌, ◌&&◌, ◌||◌, Bool, true, false, [], ◌∷◌, ◌++◌, map, null, leb, ◌==◌, if◌then◌else◌, length,
  drop, none, some,
}
use air_sane.Text.{Bytes, codes, equal, find, find_byte}
use air_sane.Dictionary.{Storage, erase_key, get_string, assign}
use air_sane.Sane.{Run, ok, crash, ◌>>=◌}

unfoldable pub lower : ℕ → ℕ
lower c = if leb 65 c && leb c 90 then c + 32 else c

unfoldable pub ctolower : Bytes → Bytes
unfolding lower
ctolower = map lower

unfoldable pub is_space : ℕ → Bool
is_space c = c == 32 || (leb 9 c && leb c 13)

-- White space is removed everywhere, not only at the ends.
unfoldable pub ctrim : Bytes → Bytes
unfolding is_space
ctrim [] = []
ctrim (c ∷ s) = if is_space c then ctrim s else c ∷ ctrim s

-- The key under which a header is looked up.
abbrev pub header_key : Bytes → Bytes
header_key key = ctolower (ctrim key)

unfoldable pub status_reason : ℕ → Bytes
status_reason status =
    if status == 200
    then codes "OK"
    else if status == 201
    then codes "Created"
    else if status == 400
    then codes "Bad Request"
    else if status == 404
    then codes "Not Found"
    else if status == 405
    then codes "Method Not Allowed"
    else if status == 503
    then codes "Service Unavailable"
    else codes "Unknown Reason"

-- `head` is what has been written of status lines and headers, and `stream` the state of the stream
-- that the content goes to. `chunked` tells whether it goes there in chunks.
pub record Response (S : Type 0) : Type 0 where
  pub status : ℕ
  pub headers : Storage
  pub sent : Bool
  pub chunked : Bool
  pub head : Bytes
  pub stream : S

abbrev pub content_length : Bytes
content_length = codes "content-length"

abbrev pub transfer_encoding : Bytes
transfer_encoding = codes "transfer-encoding"

abbrev pub connection : Bytes
connection = codes "connection"

unfoldable pub header_lines : Storage → Bytes
header_lines [] = []
header_lines ((k, v) ∷ m) =
    if null v then header_lines m else k ++ (codes ": " ++ (v ++ (b'\r' ∷ b'\n' ∷ header_lines m)))

module _ {S : Type 0} where
  unfoldable pub new_response : S → Response S
  new_response s = record {
    status = 200;
    headers = [];
    sent = false;
    chunked = false;
    head = [];
    stream = s;
  }

  unfoldable pub set_status : ℕ → Response S → Response S
  set_status n r = record r { status = n }

  -- An empty value erases the key as it is given.
  unfoldable pub set_header : Bytes → Bytes → Response S → Response S
  set_header key value r =
      if null (ctrim value)
      then record r { headers = erase_key r.headers key }
      else record r { headers = assign r.headers (header_key key) (ctrim value) }

  unfoldable pub header : Bytes → Response S → Bytes
  header key r = get_string r.headers (header_key key)

  -- What the transfer encoding asks for. Another one than these is an exception.
  unfoldable pub encode : Bytes → Response S → Run (Response S)
  encode encoding r =
      if equal encoding (codes "identity")
      then ok (set_header transfer_encoding [] r)
      else if equal encoding (codes "chunked")
      then ok (set_header content_length [] (record r { chunked = true }))
      else if null encoding
      then ok r
      else crash

  -- `show` is the C++ stream's output of the status.
  unfoldable pub write_head : (ℕ → Bytes) → Response S → Response S
  write_head show r = record r {
    head =
        r.head
        ++ (codes "HTTP/1.1 "
            ++ (show r.status
                ++ (b' ' ∷ status_reason r.status)
                ++ (b'\r' ∷ b'\n' ∷ header_lines r.headers)
                ++ (b'\r' ∷ b'\n' ∷ [])));
    sent = true;
  }

  unfoldable pub send_headers : (ℕ → Bytes) → Response S → Run (Response S)
  send_headers show r =
      let r' = set_header connection (codes "close") r in
      encode (ctolower (header transfer_encoding r')) r' >>= λ x. ok (write_head show x)

  unfoldable pub send : (ℕ → Bytes) → Response S → Run (Response S)
  send show r = send_headers show (set_header content_length [] r)

  -- `write` is the output of a string to a stream.
  unfoldable pub send_with_content :
      (ℕ → Bytes) → (Bytes → S → S) → Bytes → Response S → Run (Response S)
  send_with_content show write s r =
      send_headers show (set_header content_length (show (length s)) r) >>= λ x.
      ok (record x { stream = write s x.stream })

-- The part of a url behind its host; an exception if no path follows the host.
unfoldable pub to_relative_url : Bytes → Run Bytes
to_relative_url url = elim (find (codes "://") url) [
  | none ↦ ok url
  | some n ↦ elim (find_byte b'/' (drop (n + 3) url)) [
    | none ↦ crash
    | some k ↦ ok (drop (n + 3 + k) url)
  ]
]

unfoldable pub file_extension : Bytes → Bytes
file_extension mime_type =
    if equal mime_type (codes "image/jpeg")
    then codes ".jpg"
    else if equal mime_type (codes "application/pdf")
    then codes ".pdf"
    else if equal mime_type (codes "image/png")
    then codes ".png"
    else []
