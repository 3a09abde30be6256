-- ===== src/PdfEncoder/Escapes.antt =====
-- The strings of a PDF document (imageformats/pdfencoder.cpp): how a reader of the format takes
-- a literal string apart.
use air_sane.Prelude.{
  ℕ, ◌≡◌, refl, Bool, true, false, ◌==◌, if◌then◌else◌, [], ◌∷◌, ◌++◌, Option, none, some, arith,
}
use air_sane.Text.{Bytes}
use air_sane.PdfText.{pdf_string_encode}

-- What a letter behind a backslash stands for.
abbrev pub escaped : ℕ → ℕ
escaped c =
    if c == b'n'
    then b'\n'
    else if c == b't'
    then b'\t'
    else if c == b'r'
    then b'\r'
    else if c == b'b'
    then 8
    else if c == b'f'
    then 12
    else c

abbrev add : ℕ → Option (Bytes × Bytes) → Option (Bytes × Bytes)
add c none = none
add c (some (s, rest)) = some (c ∷ s, rest)

-- The string up to the parenthesis that closes it, and what follows. The flag tells that a
-- backslash has been read. An opening parenthesis is refused.
abbrev pub read_literal : Bool → Bytes → Option (Bytes × Bytes)
read_literal behind [] = none
read_literal true (c ∷ s) = add (escaped c) (read_literal false s)
read_literal false (c ∷ s) =
    let rest = read_literal false s in
    let escape = read_literal true s in
    if c == b'\\'
    then escape
    else if c == b')'
    then some ([], s)
    else if c == b'('
    then none
    else add c rest

-- A reader of literal strings gets back the string that pdfStringEncode has encoded, and stops at
-- the parenthesis that closes it, whatever follows.
pub read_literal-pdf_string_encode :
    (s rest : Bytes) → read_literal false (pdf_string_encode s ++ b')' ∷ rest) ≡ some (s, rest)
unfolding pdf_string_encode
read_literal-pdf_string_encode [] rest = refl
read_literal-pdf_string_encode (c ∷ s) rest = ground (arith, read_literal-pdf_string_encode s rest)
