-- ===== src/Http/Request.antt =====
-- web/httpserver.cpp: how a request is read from its stream, its content and its form data.
-- The stream is the list of its bytes; `strtod` on the content length and `strtol` with base 16 are
-- the parameters `number` and `hexdecode`.
pub mod Reading
use air_sane.Prelude.{
  ℕ, zero, suc, ◌+◌, ◌-◌, ◌&&◌, ◌==◌, Bool, true, false, not, if◌then◌else◌, List, [], ◌∷◌, ◌++◌,
  Option, none, some, null, take, drop, length, ltb,
}
use air_sane.Prelude.Int.{ℤ, pos, negsuc}
use air_sane.Text.{Bytes, codes, equal, find_byte, starts_with}
use air_sane.Dictionary.{Storage, assign, get_string, has_key}
use air_sane.AccessFile.Parsing.{first_word, skip_space}
use air_sane.Http.{ctrim, header_key, content_length}

-- `rest` is what the stream still holds.
pub record Message : Type 0 where
  pub method : Bytes
  pub uri : Bytes
  pub protocol : Bytes
  pub headers : Storage
  pub valid : Bool
  pub rest : Bytes

abbrev pub in_front : ℕ → List (Bytes × Bytes) → List (Bytes × Bytes)
in_front c [] = (c ∷ [], []) ∷ []
in_front c ((line, after) ∷ rows) = (c ∷ line, after) ∷ rows

-- The lines that `std::getline` gives one after another, each with what is left behind it.
unfoldable pub get_lines : Bytes → List (Bytes × Bytes)
get_lines [] = []
get_lines (c ∷ s) = if c == b'\n' then ([], s) ∷ get_lines s else in_front c (get_lines s)

-- `is >> word`
unfoldable pub read_word : Bytes → Option (Bytes × Bytes)
unfolding first_word skip_space
read_word s = let t = skip_space s in if null t then none else some (first_word t)

-- The three words of the first line.
unfoldable pub request_line : Bytes → Message → Message
request_line line m = elim (read_word line) [
  | none ↦ record m { valid = false }
  | some (word, line') ↦ elim (read_word line') [
    | none ↦ record m { method = word; valid = false }
    | some (word', line'') ↦ elim (read_word line'') [
      | none ↦ record m { method = word; uri = word'; valid = false }
      | some (word'', _) ↦ record m { method = word; uri = word'; protocol = word'' }
    ]
  ]
]

-- `line.back() == '\r'`, false for an empty line.
unfoldable pub ends_in_return : Bytes → Bool
ends_in_return [] = false
ends_in_return (c ∷ []) = c == b'\r'
ends_in_return (c ∷ d ∷ s) = ends_in_return (d ∷ s)

unfoldable pub header_entry : Bytes → Option (Bytes × Bytes)
unfolding ends_in_return
header_entry line = if not (ends_in_return line) then none else elim (find_byte b':' line) [
  | none ↦ none
  | some n ↦ some (header_key (take n line), ctrim (drop (n + 1) line))
]

-- The loop over the headers, up to the line that is empty.
unfoldable pub read_headers : List (Bytes × Bytes) → Message → Message
unfolding header_entry
read_headers [] m = record m { rest = [] }
read_headers ((line, after) ∷ rows) m =
    if equal line (b'\r' ∷ []) then record m { rest = after } else elim (header_entry line) [
      | none ↦ record m { valid = false; rest = after }
      | some (k, v) ↦ read_headers rows (record m { headers = assign m.headers k v })
    ]

abbrev no_message : Message
no_message = record { method = []; uri = []; protocol = []; headers = []; valid = true; rest = [] }

-- The constructor. A stream that has ended already gives a valid request with nothing in it.
unfoldable pub read_request : Bytes → Message
unfolding request_line read_headers
read_request input = elim (get_lines input) [
  | [] ↦ no_message
  | (line, after) ∷ rows ↦
      let m = request_line line no_message in
      if m.valid then read_headers rows m else record m { rest = after }
]

unfoldable pub request_header : Bytes → Message → Bytes
request_header key m = get_string m.headers (header_key key)

-- The lines of the headers as `print` writes them.
abbrev pub printed_headers : Storage → Bytes
printed_headers [] = []
printed_headers ((k, v) ∷ m) = k ++ (codes ": " ++ (v ++ (b'\n' ∷ printed_headers m)))

unfoldable pub print_request : Message → Bytes
print_request m =
    m.method ++ (b' ' ∷ (m.uri ++ (b' ' ∷ (m.protocol ++ (b'\n' ∷ printed_headers m.headers)))))

abbrev zeros : ℕ → Bytes
zeros zero = []
zeros (suc n) = 0 ∷ zeros n

-- The positions up to a separator and the text behind it.
unfoldable pub split_at_byte : ℕ → Bytes → Bytes × Bytes
split_at_byte c s = elim (find_byte c s) [ none ↦ (s, []) | some n ↦ (take n s, drop (n + 1) s) ]

module _ (number : Bytes → ℤ) where
  unfoldable pub content_size : Message → ℤ
  content_size m =
      if has_key m.headers content_length
      then number (get_string m.headers content_length)
      else negsuc 0

  -- The content of a request that has not read it yet: bytes that the stream does not have are zero.
  unfoldable pub content : Message → Bytes
  unfolding content_size
  content m = elim (content_size m) [
    | pos n ↦ take n m.rest ++ zeros (n - length m.rest)
    | negsuc n ↦ []
  ]

  unfoldable pub has_form_data : Message → Bool
  unfolding content_size request_header
  has_form_data m =
      equal (request_header (codes "content-type") m) (codes "application/x-www-form-urlencoded")
      && elim (content_size m) [ pos n ↦ ltb 0 n | negsuc n ↦ false ]

-- The entries of a form, between its ampersands; what is behind the last one is not an entry if
-- it is empty.
unfoldable pub get_entries : Bytes → List Bytes
get_entries [] = []
get_entries (c ∷ s) =
    let rest = get_entries s in
    if c == b'&' then [] ∷ rest else elim rest as (λ _. List Bytes) [
      | [] ↦ (c ∷ []) ∷ []
      | entry ∷ entries ↦ (c ∷ entry) ∷ entries
    ]

module _ (hexdecode : Bytes → ℕ) where
  -- What the byte at hand adds, and how many bytes `i` moves on besides.
  abbrev pub decoded : ℕ → Bytes → Bytes × ℕ
  decoded c s =
      if c == b'%'
      then (if starts_with s (b'%' ∷ [])
          then (b'%' ∷ [], 1)
          else if ltb 1 (length s)
          then (hexdecode (take 2 s) ∷ [], 2)
          else ([], 0))
      else if c == b'+'
      then (b' ' ∷ [], 0)
      else (c ∷ [], 0)

  unfoldable pub urldecode_from : ℕ → Bytes → Bytes
  urldecode_from skip [] = []
  urldecode_from (suc skip) (c ∷ s) = urldecode_from skip s
  urldecode_from zero (c ∷ s) = let (out, skip) = decoded c s in out ++ urldecode_from skip s

  abbrev pub urldecode : Bytes → Bytes
  urldecode = urldecode_from 0

  unfoldable pub add_entries : List Bytes → Storage → Storage
  unfolding split_at_byte urldecode_from
  add_entries [] form = form
  add_entries (entry ∷ entries) form =
      let (key, value) = split_at_byte b'=' entry in
      add_entries entries (assign form (urldecode key) (urldecode value))

  -- The form data of a request that has not read them yet.
  unfoldable pub form_data : (Bytes → ℤ) → Message → Storage
  unfolding get_entries add_entries has_form_data content
  form_data number m =
      if has_form_data number m then add_entries (get_entries (content number m)) [] else []
