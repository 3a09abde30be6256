-- ===== src/Server/Answers.antt =====
-- The next document of a job is answered (server/server.cpp).
use air_sane.Prelude.{
  ℕ, ◌+◌, ◌<◌, ◌≡◌, refl, ap, ◌∙◌, Bool, true, false, [], none, not, arith, if◌then◌else◌,
  Bool-cases, ◌⊎◌, inl, inr,
}
use air_sane.Text.{Bytes, codes, equal}
use air_sane.Dictionary.Laws.{IsDistinct}
use air_sane.Sane.{Sane, ok}
use air_sane.Sane.Session.{is_good}
use air_sane.ScanJob.{Job, is_finished}
use air_sane.ScanJob.Status.{At, begin_transfer}
use air_sane.ScanJob.Sessions.{is_open}
use air_sane.ScanJob.Reading.{IsFinite, IsReady}
use air_sane.ScanJob.Beginning.{begin_transfer-ends}
use air_sane.ScanJob.Pixels.{Floats}
use air_sane.ScanJob.Transfer.{Output}
use air_sane.ScanJob.Finish.{Closes, finish_transfer-ends}
use air_sane.Scanner.{Scanner, Tickets, put_job}
use air_sane.Http.{
  Response, set_status, set_header, header, send, transfer_encoding, ctolower, ctrim,
}
use air_sane.Http.Sending.{send-IsSent, header-set_header, set_header-IsDistinct}
use air_sane.Server.{Pages, reply, next_document, send_document, refuse_document}

module _ (sane : Sane) (output : Output) (floats : Floats) (tickets : Tickets sane)
    (pages : Pages output.Sink) where
  open sane use {World, Settings, sane_open}
  open output use {Sink, stream_ok}
  open pages use {show_status}

  -- A response that nobody has written to.
  pub record IsNew (r : Response Sink) : Type 0 where
    pub distinct : IsDistinct r.headers
    pub no_encoding : ctolower (header transfer_encoding r) ≡ []

  reply-ends :
      (n : ℕ) (s : Scanner Settings) (w : World) (r : Response Sink)
      → IsNew r
      → (r' : Response Sink) × (reply sane output floats tickets pages n (s, w, r) ≡ ok (s, w, r'))
        × (r'.sent ≡ true)
        × (r'.status ≡ n)
  unfolding set_status header
  reply-ends n s w r v =
      let (r', e, sent, _) =
        (send-IsSent show_status (set_status n r) [] v.distinct v.no_encoding).0 refl in
      (r', rw e, sent.is_sent, sent.same_status)

  -- The response that a transfer writes to.
  opened_response : Job Settings → Response Sink → Response Sink
  opened_response j r =
      set_header transfer_encoding (codes "chunked")
        (set_header (codes "content-type") j.document_format (set_status 200 r))

  opened_response-sent :
      (j : Job Settings) (r : Response Sink)
      → IsNew r
      → (r' : Response Sink) × (send show_status (opened_response j r) ≡ ok r')
        × (r'.sent ≡ true)
        × (r'.status ≡ 200)
        × (r'.stream ≡ r.stream)
        × (r'.chunked ≡ true)
  unfolding opened_response set_header set_status ctrim ctolower header equal
  opened_response-sent j r v =
      let typed = set_header (codes "content-type") j.document_format (set_status 200 r) in
      let d =
        set_header-IsDistinct (codes "content-type") j.document_format (set_status 200 r)
          v.distinct in
      let d' = set_header-IsDistinct transfer_encoding (codes "chunked") typed d in
      let asked : header transfer_encoding (opened_response j r) ≡ codes "chunked" =
        (header-set_header transfer_encoding (codes "chunked") transfer_encoding typed d).0 refl in
      let (r', e, sent, chunked) =
        (send-IsSent show_status (opened_response j r) (codes "chunked") d'
            (ap (λ h. ctolower h) asked)).2
          refl in
      (
        r',
        e,
        sent.is_sent,
        ground (arith, sent.same_status),
        ground (arith, sent.same_stream),
        chunked,
      )

  module _ (fin : IsFinite sane) where
    send_document-ends :
        (fuel : ℕ) (key : Bytes) (j : Job Settings) (w w' : World) (s : Scanner Settings)
        (r : Response Sink)
        → IsNew r
        → IsReady j
        → fin.left w + 1 < fuel
        → stream_ok r.stream ≡ true
        → Closes sane output floats fin
        → (s' : Scanner Settings) × (u : World) × (r' : Response Sink) × (send_document sane output
              floats tickets pages fuel key
              (j, w)
              (s, w', r)
            ≡ ok (s', u, r'))
          × (r'.sent ≡ true)
          × (r'.status ≡ 200)
    unfolding send_document opened_response
    send_document-ends fuel key j w w' s r v ready f good_stream closes =
        let (r', e, sent, status, stream, _) = opened_response-sent j r v in
        let (t, x, finished, _) =
          finish_transfer-ends sane output floats fin fuel r'.stream j w ready f
            (ap stream_ok stream ∙ good_stream) closes in
        (
          record s { jobs = put_job s.jobs key x.0 },
          x.1,
          record r' { stream = t },
          rw e (rw finished),
          sent,
          status,
        )

    refuse_document-ends :
        (key : Bytes) (j : Job Settings) (w w' : World) (s : Scanner Settings) (r : Response Sink)
        → IsNew r
        → (s' : Scanner Settings) × (r' : Response Sink) × (refuse_document sane output floats
              tickets pages key
              (j, w)
              (s, w', r)
            ≡ ok (s', w, r'))
          × (r'.sent ≡ true)
          × ((r'.status ≡ 409) ⊎ (r'.status ≡ 503))
    unfolding refuse_document
    refuse_document-ends key j w w' s r v =
        let stored = record s { jobs = put_job s.jobs key j } in
        elim (Bool-cases (not (is_good j.adf_status))) [
          | inl bad ↦
              let told = record stored { temporary_adf_status = j.adf_status } in
              let (r', e, sent, status) = reply-ends 409 told w r v in
              (told, r', rw bad e, sent, inl status)
          | inr well ↦
              let (r', e, sent, status) = reply-ends 503 stored w r v in
              (stored, r', rw well e, sent, inr status)
        ]

    next_document-begun :
        (fuel : ℕ) (key : Bytes) (j : Job Settings) (w : World) (s : Scanner Settings)
        (r : Response Sink) (b : Bool) (x : At sane)
        → is_finished j.state ≡ false
        → begin_transfer sane fuel (j, w) ≡ ok (b, x)
        → next_document sane output floats tickets pages fuel key j (s, w, r) ≡ (
            if b
            then send_document sane output floats tickets pages fuel key x (s, w, r)
            else refuse_document sane output floats tickets pages key x (s, w, r))
    unfolding next_document
    next_document-begun fuel key j w s r b x n e = rw n (rw e)

    -- On a device with finitely much data, a request for the next document of a job is answered,
    -- for a response that has no repeated header and no transfer encoding, fuel that is greater
    -- than what is left to be read and one, a job whose session is open or that has none while
    -- the device can be opened, a stream that is good and stays so when the headers are sent, and
    -- an encoder that does not throw at the end of a document: the response is sent, with status
    -- 404 for a finished job and with 200, 409 or 503 for another one.
    pub next_document-ends :
        (fuel : ℕ) (key : Bytes) (j : Job Settings) (s : Scanner Settings) (w : World)
        (r : Response Sink)
        → IsNew r
        → (is_open j.session ≡ true) ⊎ ((j.session ≡ none) × (is_good (sane_open w).0 ≡ true))
        → fin.left w + 1 < fuel
        → stream_ok r.stream ≡ true
        → Closes sane output floats fin
        → (s' : Scanner Settings) × (w' : World) × (r' : Response Sink) × (next_document sane output
              floats tickets pages fuel key j
              (s, w, r)
            ≡ ok (s', w', r'))
          × (r'.sent ≡ true)
          × (is_finished j.state ≡ true → r'.status ≡ 404)
          × (is_finished j.state ≡ false
              → (r'.status ≡ 200) ⊎ ((r'.status ≡ 409) ⊎ (r'.status ≡ 503)))
    next_document-ends fuel key j s w r v o f good_stream closes =
        elim (Bool-cases (is_finished j.state)) [
          | inl over ↦
              let (r', e, sent, status) = reply-ends 404 s w r v in
              (s, w, r', unfold next_document in rw over e, sent, λ _. status, λ n. cc)
          | inr n ↦
              let (b, x, e, ready) = begin_transfer-ends sane fin fuel j w o f in
              let begun = next_document-begun fuel key j w s r b x n e in
              elim (Bool-cases b) [
                | inl yes_begun ↦
                    let (held, less) = ready yes_begun in
                    let (s', w', r', done, sent, status) =
                      send_document-ends fuel key x.0 x.1 w s r v held (omega arith) good_stream
                        closes in
                    (s', w', r', begun ∙ rw yes_begun done, sent, λ over. cc, λ _. inl status)
                | inr not_begun ↦
                    let (s', r', done, sent, status) = refuse_document-ends key x.0 x.1 w s r v in
                    (s', x.1, r', begun ∙ rw not_begun done, sent, λ over. cc, λ _. inr status)
              ]
        ]
