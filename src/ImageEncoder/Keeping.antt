-- ===== src/ImageEncoder/Keeping.antt =====
-- A property of a subclass that its virtual functions keep, over the lines that the base class
-- writes (imageformats/imageencoder.cpp).
use air_sane.Prelude.{◌≡◌, refl, Bool, true, false, ◌&&◌, ◌==◌, ◌⊎◌, inl, inr, List, [], ◌∷◌, ap}
use air_sane.Text.{Bytes}
use air_sane.ImageEncoder.{
  ImageEncoder, Hooks, Outcome, done, thrown, call_if, advance, write_line, write_lines,
}

-- A virtual function that ends without an exception, in a state with the property.
abbrev pub Ends : {S : Type 0} → (S → Type 0) → Outcome S → Type 0
Ends {S} P o = (s : S) × (o ≡ done s) × P s

-- `E` holds of the base class as long as only its line and image change.
pub record Keeps {S : Type 0} (h : Hooks S) (E : ImageEncoder → Type 0) (P : S → Type 0)
    : Type 0 where
  pub moved : (e : ImageEncoder) → E e → E (advance e)
  pub has_destination : (e : ImageEncoder) → E e → e.destination ≡ true
  pub document_begin : (e : ImageEncoder) (s : S) → E e → Ends P (h.on_document_begin e s)
  pub image_begin : (e : ImageEncoder) (s : S) → E e → P s → Ends P (h.on_image_begin e s)
  pub line : (e : ImageEncoder) (p : Bytes) (s : S) → E e → P s → Ends P (h.on_write_line e p s)
  pub image_end : (e : ImageEncoder) (s : S) → E e → P s → Ends P (h.on_image_end e s)

module _ {S : Type 0} (h : Hooks S) (E : ImageEncoder → Type 0) (P : S → Type 0)
    (k : Keeps h E P) where
  -- A call that is made, or that is not needed.
  call_if-Ends :
      (b : Bool) (f : ImageEncoder → S → Outcome S) (e : ImageEncoder) (s : S)
      → (b ≡ true → Ends P (f e s))
      → (b ≡ false → P s)
      → (s' : S) × (call_if b f (e, s) ≡ done (e, s')) × P s'
  call_if-Ends true f e s made skipped =
      let (s', eq, q) = made refl in
      (s', ap (λ o. elim o [ done t ↦ done (e, t) | thrown t ↦ thrown (e, t) ]) eq, q)
  call_if-Ends false f e s made skipped = (s, refl, skipped refl)

  pub write_line-Keeps :
      (p : Bytes) (e : ImageEncoder) (s : S)
      → E e
      → ((e.current_line == 0 && e.current_image == 0) ≡ true) ⊎ P s
      → (s' : S) × (write_line h p (e, s) ≡ done (advance e, s')) × P s'
  unfolding write_line
  write_line-Keeps p e s good start =
      let d = k.has_destination e good in
      let d' = k.has_destination (advance e) (k.moved e good) in
      let (s1, eq1, p1) =
        call_if-Ends (e.current_line == 0 && e.current_image == 0) h.on_document_begin e s
          (λ _. k.document_begin e s good)
          (λ no. elim start [ inl yes_it ↦ absurd cc | inr q ↦ q ]) in
      let (s2, eq2, p2) =
        call_if-Ends (e.current_line == 0 && e.destination) h.on_image_begin e s1
          (λ _. k.image_begin e s1 good p1) (λ _. p1) in
      let (s3, eq3, p3) =
        call_if-Ends e.destination (λ e' s'. h.on_write_line e' p s') e s2
          (λ _. k.line e p s2 good p2) (λ _. p2) in
      let (s4, eq4, p4) =
        call_if-Ends ((advance e).current_line == 0 && (advance e).destination) h.on_image_end
          (advance e) s3 (λ _. k.image_end (advance e) s3 (k.moved e good) p3) (λ _. p3) in
      (s4, rw (eq1, eq2, eq3, eq4) refl, p4)

  pub write_lines-Keeps :
      (ps : List Bytes) (e : ImageEncoder) (s : S)
      → E e
      → P s
      → (e' : ImageEncoder) × (s' : S) × (write_lines h ps (e, s) ≡ done (e', s')) × E e' × P s'
  unfolding write_lines
  write_lines-Keeps [] e s good q = (e, s, refl, good, q)
  write_lines-Keeps (p ∷ ps) e s good q =
      let (s1, eq, q1) = write_line-Keeps p e s good (inr q) in
      let (e', s', rest, ends, last) = write_lines-Keeps ps (advance e) s1 (k.moved e good) q1 in
      (e', s', rw eq rest, ends, last)
