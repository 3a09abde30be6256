-- ===== src/ImageEncoder/Trace.antt =====
-- Which virtual functions the base class calls, and in which order.
use air_sane.Prelude.{
  ℕ, suc, ◌+◌, ◌<◌, ◌≡◌, refl, ap, ◌∙◌, List, [], ◌∷◌, ◌++◌, map, append_assoc, append-nil, arith,
  length, ◌==◌, inl, inr, true, All, if◌then◌else◌,
}
use air_sane.Prelude.Int.{pos}
use air_sane.Text.{Bytes}
use air_sane.ImageEncoder.{
  ImageEncoder, Hooks, Outcome-cases, done, ◌>>=◌, write_line, write_lines, end_document,
}

pub data Event : Type 0 where
  document_begin image_begin image_end document_end : Event
  line : Bytes → Event

-- A subclass that records its calls, the latest at the end.
abbrev pub recorder : Hooks (List Event)
recorder = record {
  on_document_begin = λ e s. done (s ++ document_begin ∷ []);
  on_image_begin = λ e s. done (s ++ image_begin ∷ []);
  on_write_line = λ e p s. done (s ++ line p ∷ []);
  on_image_end = λ e s. done (s ++ image_end ∷ []);
  on_document_end = λ e s. done (s ++ document_end ∷ []);
}

-- The calls for one page.
abbrev pub page_events : List Bytes → List Event
page_events ps = image_begin ∷ (map line ps ++ image_end ∷ [])

abbrev next_image : ImageEncoder → ImageEncoder
next_image e = record e { current_line = 0; current_image = e.current_image + 1 }

-- The calls that open a document and an image before a first line.
abbrev pub opening : ImageEncoder → List Event
opening e = if e.current_image == 0 then document_begin ∷ image_begin ∷ [] else image_begin ∷ []

middle_line :
    (p : Bytes) (e : ImageEncoder) (s : List Event) (rows : ℕ)
    → e.destination ≡ true
    → 0 < e.current_line
    → e.height ≡ pos rows
    → e.current_line + 1 < rows
    → write_line recorder p (e, s)
      ≡ done (record e { current_line = e.current_line + 1 }, s ++ line p ∷ [])
unfolding write_line
middle_line p e s rows d l h more = rw (h, write_line) (ground arith)

last_line :
    (p : Bytes) (e : ImageEncoder) (s : List Event) (rows : ℕ)
    → e.destination ≡ true
    → 0 < e.current_line
    → e.height ≡ pos rows
    → e.current_line + 1 ≡ rows
    → write_line recorder p (e, s) ≡ done (next_image e, (s ++ line p ∷ []) ++ image_end ∷ [])
unfolding write_line
last_line p e s rows d l h last = rw (h, write_line) (ground arith)

first_line :
    (p : Bytes) (e : ImageEncoder) (s : List Event) (rows : ℕ)
    → e.destination ≡ true
    → e.current_line ≡ 0
    → e.height ≡ pos rows
    → 1 < rows
    → write_line recorder p (e, s)
      ≡ done (record e { current_line = 1 }, (s ++ opening e) ++ line p ∷ [])
unfolding write_line
first_line p e s rows d l h more =
    rw (h, write_line) (ground (arith, append_assoc s (document_begin ∷ []) (image_begin ∷ [])))

only_line :
    (p : Bytes) (e : ImageEncoder) (s : List Event)
    → e.destination ≡ true
    → e.current_line ≡ 0
    → e.height ≡ pos 1
    → write_line recorder p (e, s)
      ≡ done (next_image e, ((s ++ opening e) ++ line p ∷ []) ++ image_end ∷ [])
unfolding write_line
only_line p e s d l h =
    rw (h, write_line) (ground (arith, append_assoc s (document_begin ∷ []) (image_begin ∷ [])))

-- The lines of an image behind its first one.
rest_of_image :
    (p : Bytes) (ps : List Bytes) (e : ImageEncoder) (s : List Event) (rows : ℕ)
    → e.destination ≡ true
    → 0 < e.current_line
    → e.height ≡ pos rows
    → e.current_line + length (p ∷ ps) ≡ rows
    → write_lines recorder (p ∷ ps) (e, s)
      ≡ done (next_image e, s ++ (map line (p ∷ ps) ++ image_end ∷ []))
unfolding write_lines
rest_of_image p [] e s rows d l h k =
    rw (last_line p e s rows d l h (omega arith)) (rw append_assoc)
rest_of_image p (q ∷ ps) e s rows d l h k = rw (middle_line p e s rows d l h (omega arith)) (
    rest_of_image q ps (record e { current_line = e.current_line + 1 }) (s ++ line p ∷ []) rows d
      (omega arith) h (omega arith)
    ∙ rw append_assoc)

-- A whole image of `rows` lines.
whole_image :
    (p : Bytes) (ps : List Bytes) (e : ImageEncoder) (s : List Event)
    → e.destination ≡ true
    → e.current_line ≡ 0
    → e.height ≡ pos (length (p ∷ ps))
    → write_lines recorder (p ∷ ps) (e, s)
      ≡ done (next_image e, (s ++ opening e) ++ (map line (p ∷ ps) ++ image_end ∷ []))
unfolding write_lines
whole_image p [] e s d l h = rw (only_line p e s d l h) (rw append_assoc)
whole_image p (q ∷ ps) e s d l h = rw (first_line p e s (length (p ∷ q ∷ ps)) d l h (omega arith)) (
    rest_of_image q ps (record e { current_line = 1 }) ((s ++ opening e) ++ line p ∷ [])
      (length (p ∷ q ∷ ps)) d (omega arith) h (omega arith)
    ∙ rw append_assoc)

write_lines-append :
    {S : Type 0} (h : Hooks S) (ps qs : List Bytes) (x : ImageEncoder × S)
    → write_lines h (ps ++ qs) x ≡ (write_lines h ps x >>= write_lines h qs)
unfolding write_lines
write_lines-append h [] qs x = refl
write_lines-append h (p ∷ ps) qs x = elim (Outcome-cases (write_line h p x)) [
  | inl (y, e) ↦ rw e (write_lines-append h ps qs y)
  | inr (y, e) ↦ rw e
]

abbrev pub all_lines : List (List Bytes) → List Bytes
all_lines [] = []
all_lines (ps ∷ pages) = ps ++ all_lines pages

abbrev pub pages_events : List (List Bytes) → List Event
pages_events [] = []
pages_events (ps ∷ pages) = page_events ps ++ pages_events pages

abbrev at_image : ImageEncoder → ℕ → ImageEncoder
at_image e n = record e { current_line = 0; current_image = n }

one_image :
    (ps : List Bytes) (e : ImageEncoder) (s : List Event) (rows n : ℕ)
    → e.destination ≡ true
    → e.height ≡ pos rows
    → 0 < rows
    → length ps ≡ rows
    → write_lines recorder ps (at_image e n, s)
      ≡ done (at_image e (n + 1), (s ++ opening (at_image e n)) ++ (map line ps ++ image_end ∷ []))
one_image [] e s rows n d h r k = absurd (omega arith)
one_image (p ∷ ps) e s rows n d h r k = whole_image p ps (at_image e n) s d refl (rw k h)

later_opening :
    (n : ℕ)
    → (if suc n == 0 then document_begin ∷ image_begin ∷ [] else image_begin ∷ [])
      ≡ image_begin ∷ []
later_opening n = ground arith

later_images :
    (pages : List (List Bytes)) (e : ImageEncoder) (s : List Event) (rows n : ℕ)
    → e.destination ≡ true
    → e.height ≡ pos rows
    → 0 < rows
    → All (λ ps. length ps ≡ rows) pages
    → write_lines recorder (all_lines pages) (at_image e (suc n), s)
      ≡ done (at_image e (suc n + length pages), s ++ pages_events pages)
later_images [] e s rows n d h r k =
    let same : suc n + 0 ≡ suc n = omega arith in unfold write_lines in rw (same, append-nil)
later_images (ps ∷ pages) e s rows n d h r (k, ks) =
    write_lines-append recorder ps (all_lines pages) (at_image e (suc n), s)
    ∙ rw (one_image ps e s rows (suc n) d h r k) (
        let here : suc n + 1 ≡ suc (suc n) = omega arith in
        let there : suc (suc n) + length pages ≡ suc n + suc (length pages) = omega arith in
        rw here (
          later_images pages e _ rows (suc n) d h r ks
          ∙ rw (there, later_opening n) (simp append_assoc)))

-- A document of pages that all have the announced height, which is positive, is written by an
-- encoder that has a destination and has written nothing as one document, and each of its pages
-- as one image with its lines in order; the encoder ends between two images, behind as many
-- images as there are pages.
pub end_document-write_lines :
    (ps : List Bytes) (pages : List (List Bytes)) (e : ImageEncoder) (s : List Event) (rows : ℕ)
    → e.destination ≡ true
    → e.current_line ≡ 0
    → e.current_image ≡ 0
    → e.height ≡ pos rows
    → 0 < rows
    → All (λ qs. length qs ≡ rows) (ps ∷ pages)
    → (write_lines recorder (all_lines (ps ∷ pages)) (e, s) >>= end_document recorder)
      ≡ done (
        at_image e (length (ps ∷ pages)),
        s ++ (document_begin ∷ (pages_events (ps ∷ pages) ++ document_end ∷ [])),
      )
end_document-write_lines ps pages e s rows d l i h r (k, ks) =
    let start : e ≡ at_image e 0 = ground arith in
    let there : 1 + length pages ≡ suc (length pages) = omega arith in
    ap (λ e'. write_lines recorder (ps ++ all_lines pages) (e', s) >>= end_document recorder) start
    ∙ rw (write_lines-append recorder ps (all_lines pages) (at_image e 0, s)) (
        rw (one_image ps e s rows 0 d h r k) (
          rw (later_images pages e _ rows 0 d h r ks)
            (rw there (unfold end_document in rw d (simp append_assoc)))))
