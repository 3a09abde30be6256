-- ===== src/PdfEncoder.antt =====
-- imageformats/pdfencoder.cpp on a little-endian machine: the encoder that writes a document of
-- one image for each page, as the `Hooks` of the base class. The output of numbers through the C++
-- stream, the date and the uuid of the document are the parameter `Printing`. The operands of a
-- chain of insertions are evaluated from left to right.
pub mod Escapes
pub mod Objects
pub mod Xref
use air_sane.Prelude.{
  ℕ, zero, suc, ◌+◌, ◌-◌, ◌*◌, ◌/◌, ◌%◌, ◌==◌, ltb, leb, if◌then◌else◌, List, [], ◌∷◌, ◌++◌, length,
  take,
}
use air_sane.Prelude.Int.{ℤ, pos}
use air_sane.Text.{Bytes, codes}
use air_sane.PdfText.{
  scale, info_lines, creation_date, pdf_header, colorspace_name, swap_bytes, strip_dashes, pad,
}
use air_sane.Dictionary.{Storage, assign}
use air_sane.ImageEncoder.{ImageEncoder, Hooks, Outcome, done, thrown}

-- What the encoder takes from the C++ library and from `Uuid`.
pub record Printing : Type 0 where
  pub show : ℕ → Bytes
  pub show_int : ℤ → Bytes
  -- 72.0 / dpi times a number of pixels
  pub show_units : ℕ → ℤ → Bytes
  -- `pdfDate` of now
  pub date : Bytes
  -- the uuid made from a string and the time, printed
  pub uuid : Bytes → Bytes

-- An `objdef`: the number of an object and its offset from the document's beginning.
pub record Objdef : Type 0 where
  pub id : ℕ
  pub offset : ℕ

-- `written` is all that the destination has taken, and `line_buffer` the size of `mLineBuffer`.
pub record PdfEncoder : Type 0 where
  pub written : Bytes
  pub objects : List Objdef
  pub begin : ℕ
  pub startxref : ℕ
  pub info_dict : Storage
  pub info_string : Bytes
  pub obj : ℕ
  pub line_buffer : ℕ

-- `*destination() << s`
unfoldable pub put : Bytes → PdfEncoder → PdfEncoder
put s p = record p { written = p.written ++ s }

-- The object that the loop inserts goes before the first one with a larger number.
unfoldable pub insert_object : Objdef → List Objdef → List Objdef
insert_object o [] = o ∷ []
insert_object o (q ∷ qs) = if leb o.id q.id then o ∷ q ∷ qs else q ∷ insert_object o qs

-- `std::sort` by `objdef::less`, as the numbers are distinct.
unfoldable pub sort_objects : List Objdef → List Objdef
unfolding insert_object
sort_objects [] = []
sort_objects (o ∷ os) = insert_object o (sort_objects os)

module _ (c : Printing) where
  -- What stands at the offset of an object.
  abbrev pub object_head : ℕ → Bytes
  object_head id = c.show id ++ codes " 0 obj"

  -- `os << defobj(id)`
  unfoldable pub defobj : ℕ → PdfEncoder → PdfEncoder
  unfolding put
  defobj id p =
      let o : Objdef = record { id = id; offset = length p.written - p.begin } in
      put (object_head id) (record p { objects = p.objects ++ o ∷ [] })

  -- `os << defobj(++mObj)`
  unfoldable pub next_object : PdfEncoder → PdfEncoder
  unfolding defobj
  next_object p = defobj (p.obj + 1) (record p { obj = p.obj + 1 })

  -- What a document begins with, before the first byte is written.
  abbrev pub cleared : ImageEncoder → PdfEncoder → PdfEncoder
  cleared e p =
      let info = assign p.info_dict creation_date c.date in
      record p {
        line_buffer = if e.bit_depth == 16 then e.components * e.width else 0;
        info_dict = info;
        info_string = info_lines info;
        objects = [];
      }

  abbrev pub opened : ImageEncoder → PdfEncoder → PdfEncoder
  opened e p = record (put pdf_header (record (cleared e p) { begin = length p.written })) {
    obj = 1;
  }

  unfoldable pub on_document_begin : ImageEncoder → PdfEncoder → Outcome PdfEncoder
  on_document_begin e p = if e.dpi == 0 then thrown (cleared e p) else done (opened e p)

  -- The page, which is the object before its image.
  abbrev pub page_object : ImageEncoder → ℕ → Bytes
  page_object e n =
      codes "<<\n/Type/Page\n/Contents "
      ++ c.show (n + 2)
      ++ codes " 0 R\n"
      ++ codes "/Rotate "
      ++ c.show_int e.orientation_degrees
      ++ codes "\n"
      ++ codes "/MediaBox [ 0 0 "
      ++ c.show_units e.dpi (pos e.width)
      ++ codes " "
      ++ c.show_units e.dpi e.height
      ++ codes " ]\n"
      ++ codes "/Parent 1 0 R\n"
      ++ codes "/Resources << /XObject << /strip0 "
      ++ c.show (n + 1)
      ++ codes " 0 R >> >>\n"
      ++ codes ">>\nendobj\n"

  abbrev pub image_object : ImageEncoder → Bytes
  image_object e =
      codes "\n"
      ++ codes "<<\n/Type /XObject\n/Subtype /Image\n"
      ++ codes "/Width "
      ++ c.show e.width
      ++ codes "\n/Height "
      ++ c.show_int e.height
      ++ codes "\n/ColorSpace /"
      ++ colorspace_name e.components
      ++ codes "\n/BitsPerComponent "
      ++ c.show e.bit_depth
      ++ codes "\n/Length "
      ++ c.show_int (scale e.bytes_per_line e.height)
      ++ codes "\n>>\nstream\n"

  unfoldable pub on_image_begin : ImageEncoder → PdfEncoder → Outcome PdfEncoder
  unfolding next_object put
  on_image_begin e p =
      let page = next_object p in
      let image = next_object (put (page_object e page.obj) page) in
      done (put (image_object e) image)

  -- The commands that draw the image on its page.
  abbrev pub pagedef : ImageEncoder → Bytes
  pagedef e =
      c.show_units e.dpi (pos e.width)
      ++ codes " 0 0 "
      ++ c.show_units e.dpi e.height
      ++ codes " 0 0 cm\n"
      ++ codes "/strip0 Do\n"

  unfoldable pub on_image_end : ImageEncoder → PdfEncoder → Outcome PdfEncoder
  unfolding next_object put
  on_image_end e p =
      let contents = next_object (put (codes "\nendstream\nendobj\n") p) in
      done (
        put
          (codes "\n<<\n/Length "
            ++ c.show (length (pagedef e))
            ++ codes "\n>>\n"
            ++ codes "stream\n"
            ++ pagedef e
            ++ codes "endstream\n"
            ++ codes "\nendobj\n")
          contents)

  -- `line` has at least `bytes_per_line` bytes.
  unfoldable pub on_write_line : ImageEncoder → Bytes → PdfEncoder → Outcome PdfEncoder
  unfolding put swap_bytes
  on_write_line e line p =
      if p.line_buffer == 0
      then done (put (take e.bytes_per_line line) p)
      else done (put (take e.bytes_per_line (swap_bytes p.line_buffer line)) p)

  -- The loop `for (i = 2; i < mObj; i += 3)`, with `n` rounds at most.
  unfoldable pub kids : ℕ → ℕ → ℕ → Bytes
  kids zero i stop = []
  kids (suc n) i stop =
      let rest = kids n (i + 3) stop in
      if ltb i stop then c.show i ++ codes " 0 R\n" ++ rest else []

  abbrev pub pages_object : ImageEncoder → ℕ → Bytes
  pages_object e stop =
      codes "\n<<\n"
      ++ codes "/Type/Pages\n"
      ++ codes "/Count "
      ++ c.show e.current_image
      ++ codes "\n"
      ++ codes "/Kids [\n"
      ++ kids stop 2 stop
      ++ codes "\n]\n>>\nendobj\n"

  -- One line for each offset.
  abbrev pub xref_lines : List Objdef → Bytes
  xref_lines [] = []
  xref_lines (o ∷ os) = pad (c.show o.offset) ++ codes " 00000 n \n" ++ xref_lines os

  abbrev pub xref_table : List Objdef → Bytes
  xref_table os =
      codes "xref\n"
      ++ codes "0 "
      ++ c.show (length os + 1)
      ++ codes "\n"
      ++ codes "0000000000 65535 f \n"
      ++ xref_lines os

  abbrev pub trailer : ℕ → ℕ → Bytes → ℕ → Bytes
  trailer size n fileid start =
      codes "trailer\n<<\n"
      ++ codes "/Size "
      ++ c.show (size + 1)
      ++ codes "\n"
      ++ codes "/Root "
      ++ c.show (n - 1)
      ++ codes " 0 R\n"
      ++ codes "/Info "
      ++ c.show n
      ++ codes " 0 R\n"
      ++ codes "/ID [\n<"
      ++ fileid
      ++ codes ">\n<"
      ++ fileid
      ++ codes ">\n]\n"
      ++ codes ">>\n"
      ++ codes "%PDF-raster-1.0\n"
      ++ codes "startxref\n"
      ++ c.show start
      ++ codes "\n"
      ++ codes "%%EOF\n"

  -- The objects that end a document: the pages, the catalog and the information.
  unfoldable pub last_objects : ImageEncoder → PdfEncoder → PdfEncoder
  unfolding defobj next_object put
  last_objects e p =
      let pages = put (pages_object e p.obj) (defobj 1 p) in
      let catalog =
        put (codes "<<\n/Type/Catalog\n/Pages 1 0 R\n>>\n" ++ codes "endobj\n")
          (next_object pages) in
      put (codes "<<\n" ++ p.info_string ++ codes ">>\nendobj\n") (next_object catalog)

  unfoldable pub on_document_end : ImageEncoder → PdfEncoder → Outcome PdfEncoder
  unfolding last_objects put strip_dashes sort_objects
  on_document_end e p =
      let fileid = strip_dashes (c.uuid p.info_string) in
      let q = last_objects e p in
      let start = length q.written - q.begin in
      let r : PdfEncoder = record q { startxref = start; objects = sort_objects q.objects } in
      done (put (xref_table r.objects ++ trailer (length r.objects) r.obj fileid start) r)

  abbrev pub pdf_hooks : Hooks PdfEncoder
  pdf_hooks = record {
    on_document_begin = on_document_begin;
    on_image_begin = on_image_begin;
    on_write_line = on_write_line;
    on_image_end = on_image_end;
    on_document_end = on_document_end;
  }
