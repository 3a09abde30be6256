-- ===== src/Http/Sending.antt =====
-- What the headers of a response hold, and what `send` makes of them (web/httpserver.cpp).
use air_sane.Prelude.{
  ℕ, ◌≡◌, refl, ap, ◌∙◌, true, false, [], arith, null, if◌then◌else◌, Bool-cases, inl, inr,
}
use air_sane.Text.{Bytes, codes, equal}
use air_sane.Dictionary.{Storage, erase_key, get_string, assign}
use air_sane.Dictionary.Laws.{
  IsDistinct, find-assign, assign-IsDistinct, find-erase_key, erase_key-IsDistinct,
}
use air_sane.Sane.{ok}
use air_sane.Http.{
  Response, ctolower, ctrim, header_key, set_header, header, content_length, transfer_encoding,
  connection, encode, write_head, send_headers, send,
}

get_string-assign :
    (m : Storage) (key other value : Bytes)
    → get_string (assign m key value) other
      ≡ (if equal key other then value else get_string m other)
unfolding get_string
get_string-assign m key other value = rw (find-assign m key other value, get_string) (ground arith)

get_string-erase_key :
    (m : Storage) (key other : Bytes)
    → IsDistinct m
    → get_string (erase_key m key) other ≡ (if equal key other then [] else get_string m other)
unfolding get_string
get_string-erase_key m key other d = rw (find-erase_key m key other d, get_string) (ground arith)

module _ {S : Type 0} where
  pub set_header-IsDistinct :
      (key value : Bytes) (r : Response S)
      → IsDistinct r.headers
      → IsDistinct (set_header key value r).headers
  unfolding set_header
  set_header-IsDistinct key value r d = elim (Bool-cases (null (ctrim value))) [
    | inl e ↦ rw e (erase_key-IsDistinct r.headers key d)
    | inr n ↦ rw n (assign-IsDistinct r.headers (header_key key) (ctrim value) d)
  ]

  -- For a response with no repeated headers, a header that is set to a value that is not blank is
  -- seen trimmed under every spelling of its key and changes no other header; a blank value
  -- removes the header with exactly the given key and no other.
  pub header-set_header :
      (key value other : Bytes) (r : Response S)
      → IsDistinct r.headers
      → (null (ctrim value) ≡ false
          → header other (set_header key value r)
            ≡ (if equal (header_key key) (header_key other) then ctrim value else header other r))
        × (null (ctrim value) ≡ true
            → header other (set_header key value r)
              ≡ (if equal key (header_key other) then [] else header other r))
  unfolding set_header header
  header-set_header key value other r d = (
    λ n. rw n (get_string-assign r.headers (header_key key) (header_key other) (ctrim value)),
    λ e. rw e (get_string-erase_key r.headers key (header_key other) d),
  )

  -- The header that `send` reads, behind the two that it has written.
  prepared : Response S → Response S
  prepared r = set_header connection (codes "close") (set_header content_length [] r)

  prepared-headers :
      (r : Response S)
      → IsDistinct r.headers
      → IsDistinct (prepared r).headers
        × (header transfer_encoding (prepared r) ≡ header transfer_encoding r)
        × (header content_length (prepared r) ≡ [])
        × (header connection (prepared r) ≡ codes "close")
  unfolding prepared equal ctrim header ctolower get_string
  prepared-headers r d =
      let first = set_header content_length [] r in
      let d' = set_header-IsDistinct content_length [] r d in
      (
        set_header-IsDistinct connection (codes "close") first d',
        (header-set_header connection (codes "close") transfer_encoding first d').0 refl
            ∙ (header-set_header content_length [] transfer_encoding r d).1 refl,
        (header-set_header connection (codes "close") content_length first d').0 refl
            ∙ (header-set_header content_length [] content_length r d).1 refl,
        (header-set_header connection (codes "close") connection first d').0 refl,
      )

  status-prepared :
      (r : Response S)
      → ((prepared r).status ≡ r.status)
        × ((prepared r).chunked ≡ r.chunked)
        × ((prepared r).stream ≡ r.stream)
  unfolding prepared set_header
  status-prepared r = ground arith

  -- What holds of a response that has been sent.
  pub record IsSent (r r' : Response S) : Type 0 where
    pub is_sent : r'.sent ≡ true
    pub same_status : r'.status ≡ r.status
    pub same_stream : r'.stream ≡ r.stream
    pub no_length : header content_length r' ≡ []
    pub closes : header connection r' ≡ codes "close"

  send-step :
      (show : ℕ → Bytes) (r r' : Response S)
      → encode (ctolower (header transfer_encoding (prepared r))) (prepared r) ≡ ok r'
      → send show r ≡ ok (write_head show r')
  unfolding send send_headers prepared
  send-step show r r' e = rw e

  pub send-IsSent :
      (show : ℕ → Bytes) (r : Response S) (encoding : Bytes)
      → IsDistinct r.headers
      → ctolower (header transfer_encoding r) ≡ encoding
      → (encoding ≡ []
          → (r' : Response S) × (send show r ≡ ok r') × IsSent r r' × (r'.chunked ≡ r.chunked))
        × (encoding ≡ codes "identity"
            → (r' : Response S) × (send show r ≡ ok r') × IsSent r r' × (r'.chunked ≡ r.chunked))
        × (encoding ≡ codes "chunked"
            → (r' : Response S) × (send show r ≡ ok r') × IsSent r r' × (r'.chunked ≡ true))
  unfolding encode write_head equal prepared set_header ctrim header ctolower get_string
  send-IsSent show r encoding d e =
      let (d', te, len, close) = prepared-headers r d in
      let (status, chunked, stream) = status-prepared r in
      let asked : ctolower (header transfer_encoding (prepared r)) ≡ encoding =
        ap (λ h. ctolower h) te ∙ e in
      (
        λ none_asked. (
          write_head show (prepared r),
          send-step show r (prepared r) (rw (asked, none_asked)),
          record {
            is_sent = refl;
            same_status = status;
            same_stream = stream;
            no_length = len;
            closes = close;
          },
          chunked,
        ),
        λ identity. (
          write_head show (set_header transfer_encoding [] (prepared r)),
          send-step show r (set_header transfer_encoding [] (prepared r)) (rw (asked, identity)),
          record {
            is_sent = refl;
            same_status = status;
            same_stream = stream;
            no_length =
                (header-set_header transfer_encoding [] content_length (prepared r) d').1 refl
                ∙ len;
            closes =
                (header-set_header transfer_encoding [] connection (prepared r) d').1 refl ∙ close;
          },
          chunked,
        ),
        λ chunks. (
          write_head show (set_header content_length [] (record (prepared r) { chunked = true })),
          send-step show r (set_header content_length [] (record (prepared r) { chunked = true }))
              (rw (asked, chunks)),
          record {
            is_sent = refl;
            same_status = status;
            same_stream = stream;
            no_length =
                (header-set_header content_length [] content_length
                    (record (prepared r) { chunked = true }) d').1
                  refl;
            closes =
                (header-set_header content_length [] connection
                    (record (prepared r) { chunked = true }) d').1
                  refl
                ∙ close;
          },
          refl,
        ),
      )
