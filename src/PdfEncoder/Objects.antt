-- ===== src/PdfEncoder/Objects.antt =====
-- The numbers and offsets of the objects that the PDF encoder has begun
-- (imageformats/pdfencoder.cpp).
use air_sane.Prelude.{
  Bool-cases, inl, inr, ℕ, zero, suc, ◌+◌, ◌-◌, ◌≤◌, ◌<◌, if◌then◌else◌, false, ◌≡◌, refl, sym, ap,
  ◌∙◌, true, List, [], ◌∷◌, ◌++◌, map, arith, All, length, drop, length-append, drop-length-append,
  append-nil, leb,
}
use air_sane.Text.{Bytes, starts_with, starts_with-append}
use air_sane.PdfEncoder.{
  Printing, Objdef, PdfEncoder, object_head, put, defobj, next_object, insert_object, sort_objects,
}

starts_with-more : (s u t : Bytes) → starts_with s t ≡ true → starts_with (s ++ u) t ≡ true
unfolding starts_with
starts_with-more s u [] h = refl
starts_with-more [] u (x ∷ t) h = absurd cc
starts_with-more (y ∷ s) u (x ∷ t) h = ground (arith, starts_with-more s u t)

-- What stands in a text still stands there when the text grows.
starts_with-drop :
    (n : ℕ) (w u t : Bytes)
    → starts_with (drop n w) t ≡ true
    → starts_with (drop n (w ++ u)) t ≡ true
unfolding starts_with
starts_with-drop zero w u t h = starts_with-more w u t h
starts_with-drop (suc n) [] u [] h = refl
starts_with-drop (suc n) [] u (x ∷ t) h = absurd cc
starts_with-drop (suc n) (y ∷ w) u t h = starts_with-drop n w u t h

abbrev pub ids : List Objdef → List ℕ
ids = map (λ o. o.id)

-- `n` numbers from `k` on.
abbrev pub numbers : ℕ → ℕ → List ℕ
numbers k zero = []
numbers k (suc n) = k ∷ numbers (suc k) n

pub numbers-snoc : (k n : ℕ) → numbers k n ++ (k + n) ∷ [] ≡ numbers k (suc n)
numbers-snoc k zero = let e : k + 0 ≡ k = omega arith in rw e
numbers-snoc k (suc n) =
    let e : k + suc n ≡ suc k + n = omega arith in rw e (ap (λ l. k ∷ l) (numbers-snoc (suc k) n))

pub ids-append : (os qs : List Objdef) → ids (os ++ qs) ≡ ids os ++ ids qs
ids-append [] qs = refl
ids-append (o ∷ os) qs = ap (λ l. o.id ∷ l) (ids-append os qs)

module _ (c : Printing) where
  -- The head of each object stands at its offset from `start` in a text.
  abbrev pub IsLocated : ℕ → Bytes → List Objdef → Type 0
  IsLocated start w = All (λ o. starts_with (drop (start + o.offset) w) (object_head c o.id) ≡ true)

  pub IsLocated-append :
      (start : ℕ) (w u : Bytes) (os : List Objdef)
      → IsLocated start w os
      → IsLocated start (w ++ u) os
  IsLocated-append start w u [] h = tt
  IsLocated-append start w u (o ∷ os) h = (
    starts_with-drop (start + o.offset) w u (object_head c o.id) h.0,
    IsLocated-append start w u os h.1,
  )

  IsLocated-snoc :
      (start : ℕ) (w : Bytes) (os : List Objdef) (o : Objdef)
      → IsLocated start w os
      → starts_with (drop (start + o.offset) w) (object_head c o.id) ≡ true
      → IsLocated start w (os ++ o ∷ [])
  IsLocated-snoc start w [] o h here = (here, tt)
  IsLocated-snoc start w (q ∷ os) o h here = (h.0, IsLocated-snoc start w os o h.1 here)

  -- Every object has been located, and the document has begun.
  pub record IsIndexed (p : PdfEncoder) : Type 0 where
    pub begun : p.begin ≤ length p.written
    pub located : IsLocated p.begin p.written p.objects

  pub put-IsIndexed : (s : Bytes) (p : PdfEncoder) → IsIndexed p → IsIndexed (put s p)
  unfolding put
  put-IsIndexed s p h = record {
    begun = omega (arith, h.begun, length-append p.written s);
    located = IsLocated-append p.begin p.written s p.objects h.located;
  }

  pub defobj-IsIndexed : (id : ℕ) (p : PdfEncoder) → IsIndexed p → IsIndexed (defobj c id p)
  unfolding defobj put
  defobj-IsIndexed id p h =
      let o : Objdef = record { id = id; offset = length p.written - p.begin } in
      let at_end : p.begin + (length p.written - p.begin) ≡ length p.written =
        omega (arith, h.begun) in
      record {
        begun = omega (arith, h.begun, length-append p.written (object_head c id));
        located =
            IsLocated-snoc p.begin (p.written ++ object_head c id) p.objects o
              (IsLocated-append p.begin p.written (object_head c id) p.objects h.located)
              (rw at_end (
                rw (drop-length-append p.written (object_head c id)) (
                  ap (λ s. starts_with s (object_head c id)) (sym (append-nil _))
                  ∙ starts_with-append (object_head c id) [])));
      }

  pub next_object-IsIndexed : (p : PdfEncoder) → IsIndexed p → IsIndexed (next_object c p)
  unfolding next_object
  next_object-IsIndexed p h =
      defobj-IsIndexed (p.obj + 1) (record p { obj = p.obj + 1 })
        (record { begun = h.begun; located = h.located })

  -- The objects of a document that has not ended have the numbers from 2 to `obj`.
  pub record IsOpen (p : PdfEncoder) : Type 0 where
    pub indexed : IsIndexed p
    pub started : 1 ≤ p.obj
    pub numbered : ids p.objects ≡ numbers 2 (p.obj - 1)

  pub put-IsOpen : (s : Bytes) (p : PdfEncoder) → IsOpen p → IsOpen (put s p)
  unfolding put
  put-IsOpen s p h = record {
    indexed = put-IsIndexed s p h.indexed;
    started = h.started;
    numbered = h.numbered;
  }

  pub next_object-IsOpen : (p : PdfEncoder) → IsOpen p → IsOpen (next_object c p)
  unfolding next_object defobj put
  next_object-IsOpen p h = record {
    indexed = next_object-IsIndexed p h.indexed;
    started = omega arith;
    numbered =
        let here : p.obj + 1 ≡ 2 + (p.obj - 1) = omega (arith, h.started) in
        let more : p.obj + 1 - 1 ≡ suc (p.obj - 1) = omega (arith, h.started) in
        ids-append p.objects _
        ∙ rw (h.numbered, more)
            (ap (λ n. numbers 2 (p.obj - 1) ++ n ∷ []) here ∙ numbers-snoc 2 (p.obj - 1));
  }

ids-cons :
    (k n : ℕ) (o : Objdef) (os : List Objdef)
    → ids (o ∷ os) ≡ numbers k (suc n)
    → (o.id ≡ k) × (ids os ≡ numbers (suc k) n)
ids-cons k n o os e = ground arith

pub ids-length : (k n : ℕ) (os : List Objdef) → ids os ≡ numbers k n → length os ≡ n
ids-length k zero [] e = refl
ids-length k (suc n) [] e = absurd cc
ids-length k zero (o ∷ os) e = absurd cc
ids-length k (suc n) (o ∷ os) e = ap suc (ids-length (suc k) n os (ids-cons k n o os e).1)

insert_object-All :
    (P : Objdef → Type 0) (o : Objdef) (os : List Objdef)
    → P o
    → All P os
    → All P (insert_object o os)
unfolding insert_object
insert_object-All P o [] h all = (h, tt)
insert_object-All P o (q ∷ os) h all = elim (Bool-cases (leb o.id q.id)) [
  | inl e ↦ rw e (h, all)
  | inr e ↦ rw e (all.0, insert_object-All P o os h all.1)
]

pub sort_objects-All : (P : Objdef → Type 0) (os : List Objdef) → All P os → All P (sort_objects os)
unfolding sort_objects
sort_objects-All P [] all = tt
sort_objects-All P (o ∷ os) all =
    insert_object-All P o (sort_objects os) all.0 (sort_objects-All P os all.1)

-- An object whose number comes right before the others goes to their front.
insert_object-front :
    (k n : ℕ) (o : Objdef) (os : List Objdef) (q : Objdef) (rest : List Objdef)
    → o.id ≡ k
    → ids os ≡ numbers (suc k) n
    → q.id ≡ suc k + n
    → insert_object o (os ++ q ∷ rest) ≡ o ∷ (os ++ q ∷ rest)
unfolding insert_object
insert_object-front k zero o [] q rest h e last = ground arith
insert_object-front k (suc n) o [] q rest h e last = ground arith
insert_object-front k zero o (p ∷ os) q rest h e last = absurd cc
insert_object-front k (suc n) o (p ∷ os) q rest h e last =
    let (first, others) = ids-cons (suc k) n p os e in ground arith

-- The pages object, which comes behind the numbered ones, is sorted to the front.
pub sort_objects-last :
    (k n : ℕ) (os : List Objdef) (pages catalog info : Objdef)
    → ids os ≡ numbers k n
    → pages.id < k
    → catalog.id ≡ k + n
    → info.id ≡ k + suc n
    → sort_objects (os ++ pages ∷ catalog ∷ info ∷ []) ≡ pages ∷ (os ++ catalog ∷ info ∷ [])
unfolding sort_objects insert_object
sort_objects-last k zero [] pages catalog info e low c i = ground arith
sort_objects-last k (suc n) [] pages catalog info e low c i = absurd cc
sort_objects-last k zero (o ∷ os) pages catalog info e low c i = absurd cc
sort_objects-last k (suc n) (o ∷ os) pages catalog info e low c i =
    let (first, others) = ids-cons k n o os e in
    let sorted =
      sort_objects-last (suc k) n os pages catalog info others (omega (arith, low))
        (omega (arith, c)) (omega (arith, i)) in
    let behind : leb o.id pages.id ≡ false = ground arith in
    rw sorted (
      ap
        (λ b.
          if b
          then o ∷ pages ∷ (os ++ catalog ∷ info ∷ [])
          else pages ∷ insert_object o (os ++ catalog ∷ info ∷ []))
        behind
      ∙ ap (λ l. pages ∷ l)
          (insert_object-front k n o os catalog (info ∷ []) first others (omega (arith, c))))
