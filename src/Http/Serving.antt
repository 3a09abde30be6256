-- ===== src/Http/Serving.antt =====
-- `handleRequest` of web/httpserver.cpp: one connection, from the check of its address to its answer.
-- The handler, `onRequest` of a subclass, is an argument, and so is what it keeps (`X`).
use air_sane.Prelude.{
  ℕ, ◌≡◌, refl, ap, ◌∙◌, Bool, true, false, ◌⊎◌, inl, inr, if◌then◌else◌, List, [], Option, none,
  some, Bool-cases, null, length, arith,
}
use air_sane.Text.{Bytes, codes, equal}
use air_sane.Sane.{Run, ok, ◌>>=◌}
use air_sane.Dictionary.{get_string}
use air_sane.Dictionary.Laws.{IsDistinct}
use air_sane.AccessFile.{Entry, Sockaddr, is_allowed}
use air_sane.Http.{
  Response, new_response, set_status, set_header, header, header_key, transfer_encoding, connection,
  content_length, ctrim, ctolower, write_head, encode, send_headers, send_with_content,
}
use air_sane.Http.Sending.{header-set_header, set_header-IsDistinct}
use air_sane.Http.Request.{Message, read_request}
use air_sane.WebPage.{WebPage, render, render_error, error_page, error_body, page_html}

module _ {S X : Type 0} (show : ℕ → Bytes) (write : Bytes → S → S)
    (on_request : Message → X × Response S → Run (X × Response S)) where
  -- The page of an error with its status.
  unfoldable pub answer_error : ℕ → Message → X × Response S → Run (X × Response S)
  answer_error n m (x, r) = render_error show write n m (set_status n r) >>= λ r'. ok (x, r')

  -- What a handler has not answered is not found.
  unfoldable pub answer_missing : Message → X × Response S → Run (X × Response S)
  unfolding answer_error
  answer_missing m (x, r) = if r.sent then ok (x, r) else answer_error 404 m (x, r)

  -- The answer to a request that has been read.
  unfoldable pub answer : Message → X × S → Run (X × Response S)
  unfolding answer_error answer_missing
  answer m (x, s) =
      if m.valid
      then on_request m (x, new_response s) >>= answer_missing m
      else answer_error 400 m (x, new_response s)

  -- `none` is a connection that is closed without an answer.
  unfoldable pub handle_request :
      List Entry → Sockaddr → Bytes → X × S → Run (Option (X × Response S))
  unfolding answer
  handle_request entries address input y =
      if is_allowed entries address
      then (answer (read_request input) y >>= λ z. ok (some z))
      else ok none

  -- A response that a page can be sent with.
  abbrev pub IsPlain : Response S → Type 0
  IsPlain r = IsDistinct r.headers × (header transfer_encoding r ≡ [])

  set_header-IsPlain :
      (key value : Bytes) (r : Response S)
      → equal (header_key key) transfer_encoding ≡ false
      → IsPlain r
      → IsPlain (set_header key value r)
  unfolding ctrim ctolower
  set_header-IsPlain key value r other (d, plain) = (
    set_header-IsDistinct key value r d,
    elim (Bool-cases (null (ctrim value))) [
      | inl e ↦
          (header-set_header key value transfer_encoding r d).1 e
          ∙ either (equal key transfer_encoding)
      | inr e ↦ (header-set_header key value transfer_encoding r d).0 e ∙ rw other plain
    ],
  )
    where
      either : (b : Bool) → (if b then [] else header transfer_encoding r) ≡ []
      either true = refl
      either false = plain

  status-set_header :
      (key value : Bytes) (r : Response S) → (set_header key value r).status ≡ r.status
  unfolding set_header
  status-set_header key value r = ground arith

  send_headers-sent :
      (r : Response S)
      → IsPlain r
      → (r' : Response S) × (send_headers show r ≡ ok r')
        × (r'.sent ≡ true)
        × (r'.status ≡ r.status)
  unfolding send_headers encode ctolower ctrim equal write_head
  send_headers-sent r plain =
      let (d, plain') = set_header-IsPlain connection (codes "close") r refl plain in
      (
        write_head show (set_header connection (codes "close") r),
        rw (plain', send_headers) refl,
        refl,
        status-set_header connection (codes "close") r,
      )

  send_with_content-sent :
      (text : Bytes) (r : Response S)
      → IsPlain r
      → (r' : Response S) × (send_with_content show write text r ≡ ok r')
        × (r'.sent ≡ true)
        × (r'.status ≡ r.status)
  unfolding send_with_content ctrim ctolower equal
  send_with_content-sent text r plain =
      let size = show (length text) in
      let plain' = set_header-IsPlain content_length size r refl plain in
      let (r', eq, sent, status) = send_headers-sent (set_header content_length size r) plain' in
      (
        record r' { stream = write text r'.stream },
        ap (λ o. o >>= written) eq,
        sent,
        status ∙ status-set_header content_length size r,
      )
    where
      written : Response S → Run (Response S)
      written x = ok (record x { stream = write text x.stream })

  -- A page is sent.
  render-sent :
      (p : WebPage) (body : Bytes) (r : Response S)
      → IsPlain r
      → r.sent ≡ false
      → (r' : Response S) × (render show write p body r ≡ ok r')
        × (r'.sent ≡ true)
        × (r'.status ≡ r.status)
  unfolding render ctrim ctolower equal
  render-sent p body r plain unsent =
      let typed = set_header (codes "content-type") (codes "text/html") r in
      let plain' = set_header-IsPlain (codes "content-type") (codes "text/html") r refl plain in
      let (r', eq, sent, status) = send_with_content-sent (page_html p body) typed plain' in
      (
        r',
        ap (λ b. if b then ok r else send_with_content show write (page_html p body) typed) unsent
            ∙ eq,
        sent,
        status ∙ status-set_header (codes "content-type") (codes "text/html") r,
      )

  -- The page of an error is sent, with its status.
  answer_error-sent :
      (n : ℕ) (m : Message) (x : X) (r : Response S)
      → IsPlain r
      → r.sent ≡ false
      → (r' : Response S) × (answer_error n m (x, r) ≡ ok (x, r'))
        × (r'.sent ≡ true)
        × (r'.status ≡ n)
  unfolding answer_error render_error set_status header
  answer_error-sent n m x r plain unsent =
      let p = error_page show n in
      let (r', eq, sent, status) =
        render-sent p (error_body show p m) (set_status n r) plain unsent in
      (r', ap (λ o. o >>= λ r''. ok (x, r'')) eq, sent, status)

  -- What the handler's answer comes to.
  pub data Answer (m : Message) (x x' : X) (r' : Response S) : X → Response S → Type 0 where
    rejected : {r'' : Response S} → m.valid ≡ false → r''.status ≡ 400 → Answer m x x' r' x r''
    missing :
        {r'' : Response S}
        → m.valid ≡ true
        → r'.sent ≡ false
        → r''.status ≡ 404
        → Answer m x x' r' x' r''
    handled : m.valid ≡ true → r'.sent ≡ true → Answer m x x' r' x' r'

  -- A connection that is closed, or one that is answered.
  abbrev pub Served : List Entry → Sockaddr → Bytes → X × S → X → Response S → Type 0
  Served entries address input (x, s) x' r' =
      ((is_allowed entries address ≡ false)
        × (handle_request entries address input (x, s) ≡ ok none))
      ⊎ ((is_allowed entries address ≡ true)
          × ((x'' : X) × (r'' : Response S) × (handle_request entries address input (x, s)
                ≡ ok (some (x'', r'')))
              × (r''.sent ≡ true)
              × Answer (read_request input) x x' r' x'' r''))

  new_response-IsPlain : (s : S) → IsPlain (new_response s)
  unfolding new_response header get_string
  new_response-IsPlain s = (tt, refl)

  answer_missing-sent :
      (m : Message) (x x' : X) (r' : Response S)
      → m.valid ≡ true
      → (r'.sent ≡ false → IsPlain r')
      → (r'' : Response S) × (answer_missing m (x', r') ≡ ok (x', r''))
        × (r''.sent ≡ true)
        × Answer m x x' r' x' r''
  unfolding answer_missing
  answer_missing-sent m x x' r' v plain = elim (Bool-cases r'.sent) [
    | inl e ↦
        (r', ap (λ b. if b then ok (x', r') else answer_error 404 m (x', r')) e, e, handled v e)
    | inr e ↦
        let (r'', eq, sent, status) = answer_error-sent 404 m x' r' (plain e) e in
        (
          r'',
          ap (λ b. if b then ok (x', r') else answer_error 404 m (x', r')) e ∙ eq,
          sent,
          missing v e status,
        )
  ]

  answer-sent :
      (m : Message) (x x' : X) (s : S) (r' : Response S)
      → (m.valid ≡ true → on_request m (x, new_response s) ≡ ok (x', r'))
      → (r'.sent ≡ false → IsPlain r')
      → (x'' : X) × (r'' : Response S) × (answer m (x, s) ≡ ok (x'', r''))
        × (r''.sent ≡ true)
        × Answer m x x' r' x'' r''
  unfolding answer new_response
  answer-sent m x x' s r' answers plain =
      let branch : Bool → Run (X × Response S) = λ b.
        if b
        then on_request m (x, new_response s) >>= answer_missing m
        else answer_error 400 m (x, new_response s) in
      elim (Bool-cases m.valid) [
        | inl v ↦
            let (r'', eq, sent, is_answer) = answer_missing-sent m x x' r' v plain in
            (
              x',
              r'',
              ap branch v ∙ (ap (λ o. o >>= answer_missing m) (answers v) ∙ eq),
              sent,
              is_answer,
            )
        | inr v ↦
            let (r'', eq, sent, status) =
              answer_error-sent 400 m x (new_response s) (new_response-IsPlain s) refl in
            (x, r'', ap branch v ∙ eq, sent, rejected v status)
      ]

  -- What the handler has sent is the answer.
  pub handle_request-handled :
      (entries : List Entry) (address : Sockaddr) (input : Bytes) (x x' : X) (s : S)
      (r' : Response S)
      → is_allowed entries address ≡ true
      → (read_request input).valid ≡ true
      → on_request (read_request input) (x, new_response s) ≡ ok (x', r')
      → r'.sent ≡ true
      → handle_request entries address input (x, s) ≡ ok (some (x', r'))
  unfolding handle_request answer answer_missing
  handle_request-handled entries address input x x' s r' allowed valid returned sent =
      rw (allowed, returned, sent) (simp valid)

  -- A connection from an address that is not allowed is closed without an answer. One from an
  -- address that is allowed is answered, if the handler returns on a valid request, and leaves a
  -- response unsent only with no repeated headers and no transfer encoding: with status 400, the
  -- handler not being asked, if the request is not valid; with status 404 if the handler has sent
  -- nothing; and as the handler has answered otherwise.
  pub handle_request-Served :
      (entries : List Entry) (address : Sockaddr) (input : Bytes) (x x' : X) (s : S)
      (r' : Response S)
      → ((read_request input).valid ≡ true
          → on_request (read_request input) (x, new_response s) ≡ ok (x', r'))
      → (r'.sent ≡ false → IsPlain r')
      → Served entries address input (x, s) x' r'
  unfolding handle_request
  handle_request-Served entries address input x x' s r' answers plain =
      elim (Bool-cases (is_allowed entries address)) [
        | inr denied ↦ inl (denied, rw denied refl)
        | inl allowed ↦
            let (x'', r'', eq, sent, is_answer) =
              answer-sent (read_request input) x x' s r' answers plain in
            inr (
              allowed,
              (x'', r'', rw allowed (ap (λ o. o >>= λ z. ok (some z)) eq), sent, is_answer),
            )
      ]
