-- ===== src/Server/Replies.antt =====
-- What the answers to a request leave of the jobs (server/server.cpp).
use air_sane.Prelude.{
  ℕ, ◌≡◌, ◌∙◌, Bool, false, some, arith, not, Bool-cases, Option-cases, inl, inr,
}
use air_sane.Text.{Bytes, equal}
use air_sane.Sane.{Sane, ok, >>=-eq-ok}
use air_sane.Sane.Session.{is_good}
use air_sane.ScanJob.{Job, is_finished}
use air_sane.ScanJob.Status.{At, begin_transfer}
use air_sane.ScanJob.Pixels.{Floats}
use air_sane.ScanJob.Transfer.{Output, finish_transfer}
use air_sane.Scanner.{Scanner, Tickets, find_job, put_job}
use air_sane.Scanner.Jobs.{find_job-put_job}
use air_sane.Scanner.Status.{write_scanner_status, write_adf_state, temporary_adf_status_string}
use air_sane.Http.{set_status, send}
use air_sane.Server.{
  Pages, Exchange, reply, reply_document, reply_icon, reply_status, next_document, send_document,
  refuse_document,
}

module _ (sane : Sane) (output : Output) (floats : Floats) (tickets : Tickets sane)
    (pages : Pages output.Sink) where
  open sane use {World, Settings}
  open output use {Sink}
  open pages use {show, show_status, write}

  pub reply-keeps :
      (n : ℕ) (x : Exchange sane output floats tickets pages)
      {y : Exchange sane output floats tickets pages}
      → reply sane output floats tickets pages n x ≡ ok y
      → y.0 ≡ x.0
  reply-keeps n (s, w, r) h =
      let (r', e, rest) = >>=-eq-ok (send show_status (set_status n r)) _ h in ground (arith, rest)

  pub reply_document-keeps :
      (type text : Bytes) (x : Exchange sane output floats tickets pages)
      {y : Exchange sane output floats tickets pages}
      → reply_document sane output floats tickets pages type text x ≡ ok y
      → y.0 ≡ x.0
  unfolding reply_document
  reply_document-keeps type text (s, w, r) h =
      let (r', e, rest) = >>=-eq-ok (send show_status _) _ h in ground (arith, rest)

  pub reply_icon-keeps :
      (x : Exchange sane output floats tickets pages)
      {y : Exchange sane output floats tickets pages}
      → reply_icon sane output floats tickets pages x ≡ ok y
      → y.0 ≡ x.0
  unfolding reply_icon
  reply_icon-keeps (s, w, r) {y} h = elim (Option-cases pages.icon) [
    | inl e ↦ reply-keeps 404 (s, w, r) (rw (e, reply_icon) at h)
    | inr (text, e) ↦
        let (r', sent, rest) = >>=-eq-ok (send show_status _) _ (rw (e, reply_icon) at h) in
        ground (arith, rest)
  ]

  pub reply_status-keeps :
      (opened : Bool) (x : Exchange sane output floats tickets pages)
      {y : Exchange sane output floats tickets pages}
      → reply_status sane output floats tickets pages opened x ≡ ok y
      → (y.0).jobs ≡ (x.0).jobs
  unfolding reply_status write_scanner_status write_adf_state temporary_adf_status_string
  reply_status-keeps opened (s, w, r) h = ground (arith, reply_document-keeps _ _ _ h)

  put_job-spares :
      (s : Scanner Settings) (named key : Bytes) (i j : Job Settings)
      → equal named key ≡ false
      → find_job s.jobs key ≡ some j
      → find_job (put_job s.jobs named i) key ≡ some j
  put_job-spares s named key i j n found = find_job-put_job s.jobs named key i ∙ rw n found

  send_document-spares :
      (fuel : ℕ) (named key : Bytes) (x : At sane) (j : Job Settings)
      (y : Exchange sane output floats tickets pages)
      {z : Exchange sane output floats tickets pages}
      → send_document sane output floats tickets pages fuel named x y ≡ ok z
      → equal named key ≡ false
      → find_job (y.0).jobs key ≡ some j
      → find_job (z.0).jobs key ≡ some j
  unfolding send_document
  send_document-spares fuel named key (i, w) j (s, w', r) h n found =
      let (r', e, rest) = >>=-eq-ok (send show_status _) _ h in
      let ((t, u), e', rest') =
        >>=-eq-ok (finish_transfer sane output floats fuel r'.stream (i, w)) _ rest in
      ground (arith, rest', put_job-spares s named key u.0 j n found)

  refuse_document-spares :
      (named key : Bytes) (x : At sane) (j : Job Settings)
      (y : Exchange sane output floats tickets pages)
      {z : Exchange sane output floats tickets pages}
      → refuse_document sane output floats tickets pages named x y ≡ ok z
      → equal named key ≡ false
      → find_job (y.0).jobs key ≡ some j
      → find_job (z.0).jobs key ≡ some j
  unfolding refuse_document
  refuse_document-spares named key (i, w) j (s, w', r) h n found =
      elim (Bool-cases (not (is_good i.adf_status))) [
        | inl bad ↦
            rw (reply-keeps 409 _ (rw (bad, refuse_document) at h))
              (put_job-spares s named key i j n found)
        | inr well ↦
            rw (reply-keeps 503 _ (rw (well, refuse_document) at h))
              (put_job-spares s named key i j n found)
      ]

  pub next_document-spares :
      (fuel : ℕ) (named key : Bytes) (i j : Job Settings)
      (y : Exchange sane output floats tickets pages)
      {z : Exchange sane output floats tickets pages}
      → next_document sane output floats tickets pages fuel named i y ≡ ok z
      → equal named key ≡ false
      → find_job (y.0).jobs key ≡ some j
      → find_job (z.0).jobs key ≡ some j
  unfolding next_document
  next_document-spares fuel named key i j (s, w, r) h n found =
      elim (Bool-cases (is_finished i.state)) [
        | inl over ↦ rw (reply-keeps 404 (s, w, r) (rw (over, next_document) at h)) found
        | inr goes ↦
            let ((b, x), e, rest) =
              >>=-eq-ok (begin_transfer sane fuel (i, w)) _ (rw (goes, next_document) at h) in
            elim (Bool-cases b) [
              | inl begun ↦
                  send_document-spares fuel named key x j (s, w, r) (rw begun at rest) n found
              | inr not_begun ↦
                  refuse_document-spares named key x j (s, w, r) (rw not_begun at rest) n found
            ]
      ]
