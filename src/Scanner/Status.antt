-- ===== src/Scanner/Status.antt =====
-- The status documents: `writeJobInfoXml` of server/scanjob.cpp, `xmlEscape` and the scanner status
-- of server/scanner.cpp. `show` is the C++ stream's output of an integer.
use air_sane.Prelude.{
  ℕ, ◌≡◌, refl, ap, ◌∙◌, Option, none, some, Bool, true, false, [], ◌∷◌, ◌++◌, ◌==◌, arith,
  if◌then◌else◌,
}
use air_sane.Prelude.Int.{ℤ, pos, ◌-ℤ◌}
use air_sane.Text.{Bytes, codes, equal, Lacks, Lacks-append}
use air_sane.Sane.{SaneStatus, good, jammed, cover_open, no_docs}
use air_sane.ScanJob.{Job, status_string, reason_string}
use air_sane.Scanner.{Scanner, Jobs}

unfoldable pub xml_escape_byte : ℕ → Bytes
xml_escape_byte c =
    if c == b'"'
    then codes "&quot;"
    else if c == b'\''
    then codes "&apos;"
    else if c == b'&'
    then codes "&amp;"
    else if c == b'<'
    then codes "&lt;"
    else if c == b'>'
    then codes "&gt;"
    else c ∷ []

unfoldable pub xml_escape : Bytes → Bytes
unfolding xml_escape_byte
xml_escape [] = []
xml_escape (c ∷ s) = xml_escape_byte c ++ xml_escape s

-- What an XML reader makes of the five predefined entities, and of nothing else.
abbrev pub entity : Bytes → ℕ
entity s =
    if equal s (codes "quot")
    then b'"'
    else if equal s (codes "apos")
    then b'\''
    else if equal s (codes "amp")
    then b'&'
    else if equal s (codes "lt")
    then b'<'
    else b'>'

-- `name` is the entity that has been read so far.
abbrev pub unescape : Bytes → Option Bytes → Bytes
unescape [] name = []
unescape (c ∷ s) none = if c == b'&' then unescape s (some []) else c ∷ unescape s none
unescape (c ∷ s) (some name) =
    if c == b';' then entity name ∷ unescape s none else unescape s (some (name ++ c ∷ []))

unescape-xml_escape_byte :
    (c : ℕ) (s : Bytes) → unescape (xml_escape_byte c ++ s) none ≡ c ∷ unescape s none
unfolding xml_escape_byte equal
unescape-xml_escape_byte c s = ground arith

pub unescape-xml_escape : (s : Bytes) → unescape (xml_escape s) none ≡ s
unfolding xml_escape
unescape-xml_escape [] = refl
unescape-xml_escape (c ∷ s) =
    unescape-xml_escape_byte c (xml_escape s) ∙ ap (λ t. c ∷ t) (unescape-xml_escape s)

pub xml_escape_byte-Lacks :
    (c : ℕ)
    → Lacks b'<' (xml_escape_byte c)
      × Lacks b'"' (xml_escape_byte c)
      × Lacks b'\'' (xml_escape_byte c)
unfolding xml_escape_byte
xml_escape_byte-Lacks c = ground arith

-- An escaped string has no "<" and no quotes, and an XML reader gets the string back from it.
pub xml_escape-Lacks :
    (s : Bytes)
    → Lacks b'<' (xml_escape s)
      × Lacks b'"' (xml_escape s)
      × Lacks b'\'' (xml_escape s)
      × (unescape (xml_escape s) none ≡ s)
unfolding xml_escape
xml_escape-Lacks [] = (tt, tt, tt, refl)
xml_escape-Lacks (c ∷ s) =
    let (lt, quot, apos) = xml_escape_byte-Lacks c in
    let (lts, quots, aposs, back) = xml_escape-Lacks s in
    (
      Lacks-append b'<' (xml_escape_byte c) (xml_escape s) lt lts,
      Lacks-append b'"' (xml_escape_byte c) (xml_escape s) quot quots,
      Lacks-append b'\'' (xml_escape_byte c) (xml_escape s) apos aposs,
      unescape-xml_escape (c ∷ s),
    )

unfoldable pub adf_status_string : SaneStatus → Bytes
adf_status_string good = codes "ScannerAdfLoaded"
adf_status_string jammed = codes "ScannerAdfJam"
adf_status_string cover_open = codes "ScannerAdfDoorOpen"
adf_status_string no_docs = codes "ScannerAdfEmpty"
adf_status_string _ = []

-- Reading the status of the feeder resets it.
unfoldable pub temporary_adf_status_string : {S : Type 0} → Scanner S → Bytes × Scanner S
temporary_adf_status_string s =
    (adf_status_string s.temporary_adf_status, record s { temporary_adf_status = good })

-- The line ends of the documents.
abbrev crlf : Bytes
crlf = b'\r' ∷ b'\n' ∷ []

abbrev line : Bytes → Bytes
line s = s ++ crlf

module _ {S : Type 0} (show : ℤ → Bytes) where
  unfoldable pub job_uri : Scanner S → Job S → Bytes
  job_uri s j = s.uri ++ (codes "/ScanJobs/" ++ j.uuid)

  unfoldable pub write_job_info : ℕ → Scanner S → Job S → Bytes
  write_job_info now s j =
      line (codes "<scan:JobInfo>")
      ++ (line (codes "<pwg:JobUri>" ++ (job_uri s j ++ codes "</pwg:JobUri>"))
          ++ (line (codes "<pwg:JobUuid>" ++ (j.uuid ++ codes "</pwg:JobUuid>"))
              ++ (line
                    (codes "<scan:Age>" ++ (show (pos now -ℤ pos j.created) ++ codes "</scan:Age>"))
                  ++ (line (
                        codes "<pwg:JobState>"
                        ++ (status_string j.state ++ codes "</pwg:JobState>"))
                      ++ (line (
                            codes "<pwg:ImagesCompleted>"
                            ++ (show (pos j.images_completed) ++ codes "</pwg:ImagesCompleted>"))
                          ++ (line (codes "<pwg:JobStateReasons>")
                              ++ (line (
                                    codes "<pwg:JobStateReason>"
                                    ++ (reason_string j.reason ++ codes "</pwg:JobStateReason>"))
                                  ++ (line (codes "</pwg:JobStateReasons>")
                                      ++ line (codes "</scan:JobInfo>")))))))))

  unfoldable pub write_job_infos : ℕ → Scanner S → Jobs S → Bytes
  write_job_infos now s [] = []
  write_job_infos now s ((k, j) ∷ m) = write_job_info now s j ++ write_job_infos now s m

  unfoldable pub write_adf_state : Scanner S → Bytes × Scanner S
  write_adf_state s =
      if s.has_adf
      then (let (status, s') = temporary_adf_status_string s in
          (line (codes "<scan:AdfState>" ++ (status ++ codes "</scan:AdfState>")), s'))
      else ([], s)

  -- `writeScannerStatusXml`. `opened` tells whether the last session of the scanner is alive.
  unfoldable pub write_scanner_status : Bool → ℕ → Scanner S → Bytes × Scanner S
  write_scanner_status opened now s =
      let (adf, s') = write_adf_state s in
      (
        line (codes "<?xml version='1.0' encoding='UTF-8'?>")
            ++ (codes "<scan:ScannerStatus xmlns:pwg='http://www.pwg.org/schemas/2010/12/sm'"
                ++ (line (codes " xmlns:scan='http://schemas.hp.com/imaging/escl/2011/05/03'>")
                    ++ (line (codes "<pwg:Version>2.0</pwg:Version>")
                        ++ (line (
                              codes "<pwg:State>"
                              ++ ((if opened then codes "Processing" else codes "Idle")
                                  ++ codes "</pwg:State>"))
                            ++ (adf
                                ++ (line (codes "<scan:Jobs>")
                                    ++ (write_job_infos now s s.jobs
                                        ++ (line (codes "</scan:Jobs>")
                                            ++ line (codes "</scan:ScannerStatus>"))))))))),
        s',
      )

  -- The status document of a scanner with a feeder tells the status of the feeder once: the next
  -- one is that of a good status, and the scanner is otherwise as it was. For a scanner with no
  -- feeder the document changes nothing.
  pub write_scanner_status-once :
      (opened opened' : Bool) (now now' : ℕ) (s : Scanner S)
      → (s.has_adf ≡ true
          → write_scanner_status opened' now' (write_scanner_status opened now s).1
            ≡ write_scanner_status opened' now' (record s { temporary_adf_status = good }))
        × (s.has_adf ≡ false → (write_scanner_status opened now s).1 ≡ s)
  unfolding write_scanner_status write_adf_state temporary_adf_status_string
  write_scanner_status-once opened opened' now now' s = (λ adf. rw adf, λ none_there. rw none_there)
