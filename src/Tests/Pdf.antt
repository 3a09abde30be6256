-- ===== src/Tests/Pdf.antt =====
-- The PDF encoder: imageformats/pdfencoder.cpp.
use air_sane.Prelude.{◌+◌, ◌%◌, ◌≡◌, refl, false, [], ◌∷◌, ◌++◌, some}
use air_sane.Text.{codes}
use air_sane.ImageEncoder.{ImageEncoder}
use air_sane.PdfText.{pdf_string_encode, pdf_name_encode, swap_bytes}
use air_sane.PdfEncoder.{Printing, PdfEncoder}
use air_sane.PdfEncoder.Escapes.{read_literal, read_literal-pdf_string_encode}

-- Every number is printed in one digit.
abbrev printing : Printing
printing = record {
  show = λ n. (48 + n % 10) ∷ [];
  show_int = λ z. b'7' ∷ [];
  show_units = λ dpi z. codes "1.5";
  date = codes "D:20240102030405Z";
  uuid = λ s. codes "12-34";
}

-- An encoder that has been left in the middle of something.
abbrev used : PdfEncoder
used = record {
  written = codes "before";
  objects = record { id = 9; offset = 4 } ∷ [];
  begin = 2;
  startxref = 0;
  info_dict = (codes "Title", codes "(x)") ∷ [];
  info_string = [];
  obj = 5;
  line_buffer = 3;
}

parentheses : pdf_string_encode (codes "(a)\n") ≡ codes "\\(a\\)\\n"
unfolding pdf_string_encode
parentheses = refl

spaces : pdf_name_encode (codes "a b") ≡ codes "a#20b"
unfolding pdf_name_encode
spaces = refl

swapped : swap_bytes 2 (1 ∷ 2 ∷ 3 ∷ 4 ∷ []) ≡ 2 ∷ 1 ∷ 4 ∷ 3 ∷ []
unfolding swap_bytes
swapped = refl

read_literal-pdf_string_encode_example :
    read_literal false (pdf_string_encode (codes "(a)\n") ++ b')' ∷ codes " /Next")
    ≡ some (codes "(a)\n", codes " /Next")
read_literal-pdf_string_encode_example =
    read_literal-pdf_string_encode (codes "(a)\n") (codes " /Next")
