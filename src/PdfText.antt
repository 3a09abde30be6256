-- ===== src/PdfText.antt =====
-- The texts of imageformats/pdfencoder.cpp that need no encoder: names and strings of the format, the
-- information of a document, padding, and the order of bytes in a line on a little-endian machine.
use air_sane.Prelude.{
  ℕ, zero, suc, ◌+◌, ◌-◌, ◌*◌, ◌||◌, ◌==◌, if◌then◌else◌, [], ◌∷◌, ◌++◌, null, length,
}
use air_sane.Prelude.Int.{ℤ, pos, negsuc}
use air_sane.Text.{Bytes, codes}
use air_sane.Dictionary.{Storage}

unfoldable pub pdf_name_encode : Bytes → Bytes
pdf_name_encode [] = []
pdf_name_encode (c ∷ s) =
    let rest = pdf_name_encode s in
    if c == b'\n' || c == b'\r' || c == b'\t' || c == b' ' then codes "#20" ++ rest else c ∷ rest

unfoldable pub pdf_string_encode : Bytes → Bytes
pdf_string_encode [] = []
pdf_string_encode (c ∷ s) =
    let rest = pdf_string_encode s in
    if c == b'\n'
    then b'\\' ∷ b'n' ∷ rest
    else if c == b'\t'
    then b'\\' ∷ b't' ∷ rest
    else if c == b'\r'
    then b'\\' ∷ b'r' ∷ rest
    else if c == 8
    then b'\\' ∷ b'b' ∷ rest
    else if c == 12
    then b'\\' ∷ b'f' ∷ rest
    else if c == b'(' || c == b')' || c == b'\\'
    then b'\\' ∷ c ∷ rest
    else c ∷ rest

-- `x * b` for an integer `x`.
unfoldable pub scale : ℕ → ℤ → ℤ
scale b (pos n) = pos (n * b)
scale b (negsuc n) = if b == 0 then pos 0 else negsuc ((n + 1) * b - 1)

-- The pairs with a key and a value.
unfoldable pub info_lines : Storage → Bytes
unfolding pdf_name_encode pdf_string_encode
info_lines [] = []
info_lines ((k, v) ∷ m) =
    if null k || null v
    then info_lines m
    else b'/'
      ∷ (pdf_name_encode k
          ++ (codes " (" ++ (pdf_string_encode v ++ (codes ")\n" ++ info_lines m))))

abbrev pub creation_date : Bytes
creation_date = codes "CreationDate"

-- The first line, and a comment of bytes above 127.
abbrev pub pdf_header : Bytes
pdf_header = codes "%PDF-1.4\n%" ++ (195 ∷ 162 ∷ 195 ∷ 163 ∷ 195 ∷ 143 ∷ 195 ∷ 147 ∷ b'\n' ∷ [])

abbrev pub colorspace_name : ℕ → Bytes
colorspace_name n =
    if n == 1
    then codes "DeviceGray"
    else if n == 3
    then codes "DeviceRGB"
    else if n == 4
    then codes "DeviceCMYK"
    else codes "unknown"

-- `htons` on a line of 16-bit numbers, whose low bytes come first.
unfoldable pub swap_bytes : ℕ → Bytes → Bytes
swap_bytes zero line = []
swap_bytes (suc n) (low ∷ high ∷ line) = high ∷ low ∷ swap_bytes n line
swap_bytes (suc n) line = line

unfoldable pub strip_dashes : Bytes → Bytes
strip_dashes [] = []
strip_dashes (c ∷ s) = if c == b'-' then strip_dashes s else c ∷ strip_dashes s

abbrev pub zeros : ℕ → Bytes
zeros zero = []
zeros (suc n) = b'0' ∷ zeros n

-- `setfill('0') << setw(10)`
abbrev pub pad : Bytes → Bytes
pad s = zeros (10 - length s) ++ s
