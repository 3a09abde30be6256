-- ===== src/PdfEncoder/Xref.antt =====
-- The cross-reference table of a PDF document and the objects that it points to
-- (imageformats/pdfencoder.cpp).
use air_sane.Prelude.{◌-◌, ◌<◌, ◌≡◌, true, ◌++◌, length}
use air_sane.Text.{Bytes}
use air_sane.ImageEncoder.{ImageEncoder}
use air_sane.PdfEncoder.{Printing, PdfEncoder, xref_table, trailer}
use air_sane.PdfEncoder.Objects.{ids, numbers, IsLocated}

-- An encoder that can begin a document.
abbrev pub IsReady : ImageEncoder → Type 0
IsReady e = (0 < e.dpi) × (e.destination ≡ true)

module _ (c : Printing) where
  -- A document whose table has been written behind `body`.
  pub record IsFinished (p : PdfEncoder) : Type 0 where
    pub body : Bytes
    pub fileid : Bytes
    pub written_is :
        p.written
        ≡ body
          ++ (xref_table c p.objects
              ++ trailer c (length p.objects) (length p.objects) fileid (length body - p.begin))
    pub numbered : ids p.objects ≡ numbers 1 (length p.objects)
    pub located : IsLocated c p.begin p.written p.objects
