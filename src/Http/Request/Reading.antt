-- ===== src/Http/Request/Reading.antt =====
-- A request that a client writes is read as it was meant (web/httpserver.cpp).
use air_sane.Prelude.{
  ℕ, ◌+◌, ◌≡◌, refl, ap, ◌∙◌, true, false, [], ◌∷◌, ◌++◌, append_assoc, null, drop, length, none,
  some, All, arith, take-length-append, drop-length-append, append-nil,
}
use air_sane.Text.{Bytes, codes, equal, find_byte-append, Lacks, Lacks-append, drop-add}
use air_sane.Dictionary.{Storage, find, assign}
use air_sane.AccessFile.Parsing.{first_word, skip_space}
use air_sane.Http.{is_space, ctolower, ctrim}
use air_sane.Http.Request.{
  Message, no_message, get_lines, read_word, request_line, ends_in_return, header_entry,
  read_headers, read_request,
}

-- A text without white space.
abbrev pub IsSolid : Bytes → Type 0
IsSolid = All (λ c. is_space c ≡ false)

-- A header that is written as it is looked up, and whose value has no white space.
pub record IsHeader (k v : Bytes) : Type 0 where
  pub solid_key : IsSolid k
  pub lower_key : ctolower k ≡ k
  pub no_colon : Lacks b':' k
  pub solid_value : IsSolid v

abbrev pub Headers : Storage → Type 0
Headers [] = Unit
Headers ((k, v) ∷ m) = IsHeader k v × Headers m

-- The keys of the second list are not in the first one, nor twice in it.
abbrev pub Fresh : Storage → Storage → Type 0
Fresh m [] = Unit
Fresh m ((k, v) ∷ more) = (find m k ≡ none) × Fresh (m ++ (k, v) ∷ []) more

abbrev pub header_text : Storage → Bytes
header_text [] = codes "\r\n"
header_text ((k, v) ∷ m) = (k ++ (codes ": " ++ (v ++ codes "\r"))) ++ (b'\n' ∷ header_text m)

-- The text of a request, with what follows its headers.
abbrev pub request_text : Message → Bytes
request_text m =
    (m.method ++ (b' ' ∷ (m.uri ++ (b' ' ∷ (m.protocol ++ codes "\r")))))
    ++ (b'\n' ∷ (header_text m.headers ++ m.rest))

IsSolid-newline : (s : Bytes) → IsSolid s → Lacks b'\n' s
unfolding is_space
IsSolid-newline [] h = tt
IsSolid-newline (c ∷ s) h = (ground arith, IsSolid-newline s h.1)

get_lines-line :
    (line s : Bytes) → Lacks b'\n' line → get_lines (line ++ b'\n' ∷ s) ≡ (line, s) ∷ get_lines s
unfolding get_lines
get_lines-line [] s h = refl
get_lines-line (c ∷ line) s h = rw (h.0, get_lines-line line s h.1)

first_word-solid :
    (w s : Bytes) (c : ℕ) → IsSolid w → is_space c ≡ true → first_word (w ++ c ∷ s) ≡ (w, c ∷ s)
unfolding first_word
first_word-solid [] s c h space = rw space
first_word-solid (x ∷ w) s c h space = rw (h.0, first_word-solid w s c h.1 space)

-- One word is read, behind one blank or none.
read_word-solid :
    (w s : Bytes) (c : ℕ)
    → IsSolid w
    → null w ≡ false
    → is_space c ≡ true
    → (read_word (w ++ c ∷ s) ≡ some (w, c ∷ s))
      × (read_word (b' ' ∷ (w ++ c ∷ s)) ≡ some (w, c ∷ s))
unfolding read_word skip_space is_space
read_word-solid [] s c h full space = absurd cc
read_word-solid (x ∷ w) s c h full space =
    let word = first_word-solid (x ∷ w) s c h space in (rw (h.0, word), rw (h.0, word))

ctrim-solid : (s t : Bytes) → IsSolid s → ctrim (s ++ t) ≡ s ++ ctrim t
unfolding ctrim
ctrim-solid [] t h = refl
ctrim-solid (c ∷ s) t h = rw (h.0, ctrim-solid s t h.1)

ends_in_return-append : (s : Bytes) → ends_in_return (s ++ b'\r' ∷ []) ≡ true
unfolding ends_in_return
ends_in_return-append [] = refl
ends_in_return-append (c ∷ []) = refl
ends_in_return-append (c ∷ d ∷ s) = ends_in_return-append (d ∷ s)

ctrim-alone : (s : Bytes) → IsSolid s → ctrim s ≡ s
unfolding ctrim
ctrim-alone [] h = refl
ctrim-alone (c ∷ s) h = rw (h.0, ctrim-alone s h.1)

-- The line of a header, without its line feed.
abbrev header_line : Bytes → Bytes → Bytes
header_line k v = k ++ (codes ": " ++ (v ++ codes "\r"))

header_entry-line : (k v : Bytes) → IsHeader k v → header_entry (header_line k v) ≡ some (k, v)
unfolding header_entry ctrim
header_entry-line k v h =
    let parts : header_line k v ≡ (k ++ (codes ": " ++ v)) ++ b'\r' ∷ [] = simp append_assoc in
    let returns : ends_in_return (header_line k v) ≡ true =
      ap ends_in_return parts ∙ ends_in_return-append (k ++ (codes ": " ++ v)) in
    let colon = find_byte-append b':' k (b' ' ∷ (v ++ codes "\r")) h.no_colon in
    let behind : drop (length k + 1) (header_line k v) ≡ b' ' ∷ (v ++ codes "\r") =
      drop-add (length k) 1 (header_line k v)
      ∙ ap (drop 1) (drop-length-append k (codes ": " ++ (v ++ codes "\r"))) in
    let value : ctrim (v ++ codes "\r") ≡ v =
      ctrim-solid v (codes "\r") h.solid_value ∙ append-nil v in
    rw
      (
        returns,
        colon,
        behind,
        take-length-append k (codes ": " ++ (v ++ codes "\r")),
        value,
        ctrim-alone k h.solid_key,
        h.lower_key,
      )
      refl

-- A header line is not the empty line.
header_line-goes_on : (k v : Bytes) → IsSolid k → equal (header_line k v) (b'\r' ∷ []) ≡ false
unfolding equal is_space
header_line-goes_on [] v h = refl
header_line-goes_on (c ∷ k) v h = ground arith

header_line-newline : (k v : Bytes) → IsHeader k v → Lacks b'\n' (header_line k v)
header_line-newline k v h =
    Lacks-append b'\n' k (codes ": " ++ (v ++ codes "\r")) (IsSolid-newline k h.solid_key)
      (refl, (refl, Lacks-append b'\n' v (codes "\r") (IsSolid-newline v h.solid_value) (refl, tt)))

assign-fresh : (m : Storage) (k v : Bytes) → find m k ≡ none → assign m k v ≡ m ++ (k, v) ∷ []
unfolding assign
assign-fresh m k v h = rw (h, assign) refl

read_headers-text :
    (headers : Storage) (s : Bytes) (m : Message)
    → Headers headers
    → Fresh m.headers headers
    → read_headers (get_lines (header_text headers ++ s)) m
      ≡ record m { headers = m.headers ++ headers; rest = s }
unfolding read_headers equal
read_headers-text [] s m h fresh =
    rw (get_lines-line (b'\r' ∷ []) s (refl, tt), append-nil m.headers) refl
read_headers-text ((k, v) ∷ headers) s m (h, hs) (fresh, more) =
    let parts : header_text ((k, v) ∷ headers) ++ s
        ≡ header_line k v ++ b'\n' ∷ (header_text headers ++ s) =
      append_assoc (header_line k v) (b'\n' ∷ header_text headers) s in
    rw
      (
        parts,
        get_lines-line (header_line k v) (header_text headers ++ s) (header_line-newline k v h),
        header_line-goes_on k v h.solid_key,
        header_entry-line k v h,
        assign-fresh m.headers k v fresh,
      )
      (read_headers-text headers s (record m { headers = m.headers ++ (k, v) ∷ [] }) hs more
        ∙ ap (λ h'. record m { headers = h'; rest = s })
            (append_assoc m.headers ((k, v) ∷ []) headers))

-- A word of the first line.
abbrev pub IsWord : Bytes → Type 0
IsWord w = IsSolid w × (null w ≡ false)

abbrev first_line : Bytes → Bytes → Bytes → Bytes
first_line method uri protocol = method ++ (b' ' ∷ (uri ++ (b' ' ∷ (protocol ++ codes "\r"))))

request_line-words :
    (method uri protocol : Bytes) (m : Message)
    → IsWord method
    → IsWord uri
    → IsWord protocol
    → request_line (first_line method uri protocol) m
      ≡ record m { method = method; uri = uri; protocol = protocol }
unfolding request_line is_space
request_line-words method uri protocol m (a, a') (b, b') (c, c') =
    let one =
      (read_word-solid method (uri ++ (b' ' ∷ (protocol ++ codes "\r"))) b' ' a a' refl).0 in
    let two = (read_word-solid uri (protocol ++ codes "\r") b' ' b b' refl).1 in
    let three = (read_word-solid protocol [] b'\r' c c' refl).1 in
    rw (one, request_line, two, three) refl

first_line-newline :
    (method uri protocol : Bytes)
    → IsWord method
    → IsWord uri
    → IsWord protocol
    → Lacks b'\n' (first_line method uri protocol)
first_line-newline method uri protocol (a, _) (b, _) (c, _) =
    Lacks-append b'\n' method _ (IsSolid-newline method a) (
      refl,
      Lacks-append b'\n' uri _ (IsSolid-newline uri b)
          (refl, Lacks-append b'\n' protocol (codes "\r") (IsSolid-newline protocol c) (refl, tt)),
    )

-- A request is read back, valid and with what follows its headers, from the text that a client
-- writes of it, if its three words have no white space and are not empty, its header keys are in
-- lower case without a colon and no key stands twice, and neither keys nor values have white
-- space.
pub read_request-text :
    (m : Message)
    → IsWord m.method
    → IsWord m.uri
    → IsWord m.protocol
    → Headers m.headers
    → Fresh [] m.headers
    → read_request (request_text m) ≡ record m { valid = true }
unfolding read_request
read_request-text m a b c h fresh =
    rw
      (
        get_lines-line (first_line m.method m.uri m.protocol) (header_text m.headers ++ m.rest)
            (first_line-newline m.method m.uri m.protocol a b c),
        read_request,
        request_line-words m.method m.uri m.protocol no_message a b c,
      )
      (read_headers-text m.headers m.rest (record m { headers = []; valid = true; rest = [] }) h
        fresh)
