-- ===== src/OptionSet/Writing.antt =====
-- Writes to an option: what is refused, and what is read back.
use air_sane.Prelude.{
  ℕ, zero, suc, ◌<◌, ◌≡◌, refl, ap, sym, ◌∙◌, ◌&&◌, Bool, true, false, List, [], ◌∷◌, some, ◌==◌,
  ltb, length, if◌then◌else◌, arith, inl, inr, Bool-cases,
}
use air_sane.Prelude.Int.{ℤ}
use air_sane.Sane.{SaneStatus, good, ok, >>=-eq-ok}
use air_sane.Sane.Session.{is_good}
use air_sane.OptionSet.{
  Entry, Device, OptionSet, is_numeric_type, reload, register, array_size, is_active, is_settable,
  is_numeric, finish_write,
}
use air_sane.OptionSet.Words.{
  Numbers, set_word, word_at, unfixed, word_of, write_word, word_value, set_numeric_value,
  numeric_value,
}

word_at-set_word_self :
    (words : List ℤ) (i : ℕ) (x : ℤ) → i < length words → word_at (set_word words i x) i ≡ some x
word_at-set_word_self [] i x h = absurd (omega arith)
word_at-set_word_self (y ∷ words) zero x h = refl
word_at-set_word_self (y ∷ words) (suc i) x h = word_at-set_word_self words i x (omega arith)

word_at-set_word_ne :
    (words : List ℤ) (i j : ℕ) (x : ℤ)
    → (i == j) ≡ false
    → word_at (set_word words i x) j ≡ word_at words j
word_at-set_word_ne [] i j x h = refl
word_at-set_word_ne (y ∷ words) zero zero x h = cc
word_at-set_word_ne (y ∷ words) zero (suc j) x h = refl
word_at-set_word_ne (y ∷ words) (suc i) zero x h = refl
word_at-set_word_ne (y ∷ words) (suc i) (suc j) x h =
    word_at-set_word_ne words i j x (ground (arith, h))

if_first :
    {A B : Type 0} (b : Bool) (x y : A × B) → (if b then x else y).0 ≡ (if b then x.0 else y.0)
if_first true x y = refl
if_first false x y = refl

module _ (device : Device) where
  open device use {World, Pointer, descriptor, get_words, set_words}

  -- What the users of SANE rely on for an option of words: a write that is accepted is read back, an
  -- array is read whole, and neither changes the type or the size of the option.
  pub record KeepsWords (e : Entry Pointer) : Type 0 where
    pub kept :
        (words : List ℤ) (w : World)
        → is_good ((set_words e.index words w).0).0 ≡ true
        → (get_words e.index (set_words e.index words w).1).0 ≡ (good, words)
    pub filled :
        (w : World)
        → is_good ((get_words e.index w).0).0 ≡ true
        → length ((get_words e.index w).0).1 ≡ array_size device e w
    pub set_type :
        (words : List ℤ) (w : World)
        → (descriptor e.pointer (set_words e.index words w).1).value_type
          ≡ (descriptor e.pointer w).value_type
    pub set_size :
        (words : List ℤ) (w : World)
        → (descriptor e.pointer (set_words e.index words w).1).size ≡ (descriptor e.pointer w).size
    pub get_type :
        (w : World)
        → (descriptor e.pointer (get_words e.index w).1).value_type
          ≡ (descriptor e.pointer w).value_type
    pub get_size :
        (w : World)
        → (descriptor e.pointer (get_words e.index w).1).size ≡ (descriptor e.pointer w).size

  finish_write-eq-ok :
      (fuel : ℕ) (s : OptionSet Pointer) (answer : SaneStatus × Bool) (w : World)
      (r : Bool × OptionSet Pointer × World)
      → finish_write device fuel s answer w ≡ ok r
      → (r.0 ≡ is_good answer.0) × (r.1.has_device ≡ s.has_device) × (r.2 ≡ w)
  unfolding finish_write reload
  finish_write-eq-ok fuel s (status, false) w r h = ground (arith, h)
  finish_write-eq-ok fuel s (status, true) w r h =
      let (s', e, rest) = >>=-eq-ok (reload device fuel s w) _ h in
      let (m, e', same) = >>=-eq-ok (register device fuel 1 s.options w) _ e in
      ground (arith, rest, same)

  module _ {D : Type 0} (n : Numbers D) (e : Entry Pointer) (k : KeepsWords e) where
    -- What is read after a write of words that was accepted.
    numeric_value-set_words :
        (words : List ℤ) (j : ℕ) (s : OptionSet Pointer) (w : World)
        → s.has_device ≡ true
        → is_numeric device e w ≡ true
        → is_good ((set_words e.index words w).0).0 ≡ true
        → (numeric_value device n (some e) j (s, (set_words e.index words w).1)).0 ≡ (
            if ltb j (array_size device e w)
            then word_value device n (descriptor e.pointer w).value_type (word_at words j)
            else n.nan)
    unfolding numeric_value array_size
    numeric_value-set_words words j s w opened numeric accepted =
        let w' = (set_words e.index words w).1 in
        let t = k.get_type w' ∙ k.set_type words w in
        rw (opened, k.set_type words w, k.set_size words w, numeric, k.kept words w accepted, t)
          (if_first (ltb j (array_size device e w)) _ _)

    write_word-eq-ok :
        (fuel i : ℕ) (x : ℤ) (s : OptionSet Pointer) (w : World) (s' : OptionSet Pointer)
        (w' : World)
        → write_word device n fuel e i x s w ≡ ok (true, s', w')
        → (is_good ((get_words e.index w).0).0 ≡ true)
          × (s'.has_device ≡ s.has_device)
          × (is_good
                ((set_words e.index
                    (set_word ((get_words e.index w).0).1 i x)
                    (get_words e.index w).1).0
                  ).0
              ≡ true)
          × (w'
              ≡ (set_words e.index
                  (set_word ((get_words e.index w).0).1 i x)
                  (get_words e.index w).1).1)
    unfolding write_word
    write_word-eq-ok fuel i x s w s' w' h =
        elim (Bool-cases (is_good ((get_words e.index w).0).0)) [
          | inl read ↦
              let words = set_word ((get_words e.index w).0).1 i x in
              let answer = set_words e.index words (get_words e.index w).1 in
              let done =
                finish_write-eq-ok fuel s answer.0 answer.1 (true, s', w')
                  (rw (read, write_word) at h) in
              (read, done.1, sym done.0, done.2)
          | inr failed ↦ ground (arith, h, failed)
        ]

    -- What is read at an index before a write that is allowed.
    numeric_value-before :
        (j : ℕ) (s : OptionSet Pointer) (w : World)
        → s.has_device ≡ true
        → is_numeric device e w ≡ true
        → (numeric_value device n (some e) j (s, w)).0 ≡ (
            if ltb j (array_size device e w)
            then (if is_good ((get_words e.index w).0).0
                then word_value device n
                    (descriptor e.pointer w).value_type
                    (word_at ((get_words e.index w).0).1 j)
                else n.nan)
            else n.nan)
    unfolding numeric_value array_size
    numeric_value-before j s w opened numeric =
        rw (opened, numeric, k.get_type w) (if_first (ltb j (array_size device e w)) _ _)

    -- An option of one word.
    numeric_value-alone :
        (fuel i j : ℕ) (y : ℤ) (s : OptionSet Pointer) (w : World) (s' : OptionSet Pointer)
        (w' : World)
        → s.has_device ≡ true
        → is_numeric device e w ≡ true
        → (array_size device e w == 1 && i == 0) ≡ true
        → finish_write device fuel s
            (set_words e.index (y ∷ []) w).0
            (set_words e.index (y ∷ []) w).1
          ≡ ok (true, s', w')
        → ((numeric_value device n (some e) i (s', w')).0
            ≡ word_value device n (descriptor e.pointer w).value_type (some y))
          × ((i == j) ≡ false
              → (numeric_value device n (some e) j (s', w')).0
                ≡ (numeric_value device n (some e) j (s, w)).0)
    numeric_value-alone fuel i j y s w s' w' opened numeric alone h =
        let answer = set_words e.index (y ∷ []) w in
        let (accepted, same, after) =
          finish_write-eq-ok fuel s answer.0 answer.1 (true, s', w') h in
        let read = λ (p : ℕ).
          numeric_value-set_words (y ∷ []) p s' w (same ∙ opened) numeric (sym accepted) in
        let first : i ≡ 0 = ground (arith, alone) in
        let single : array_size device e w ≡ 1 = ground (arith, alone) in
        (
          rw (after, first) (read 0 ∙ rw single refl),
          λ differs.
              let outside : ltb j 1 ≡ false = ground (arith, differs, first) in
              rw after (
                read j
                ∙ rw (single, outside)
                    (sym (numeric_value-before j s w opened numeric ∙ rw (single, outside) refl))),
        )

    -- One word of an array.
    numeric_value-shared :
        (fuel i j : ℕ) (y : ℤ) (s : OptionSet Pointer) (w : World) (s' : OptionSet Pointer)
        (w' : World)
        → s.has_device ≡ true
        → is_numeric device e w ≡ true
        → i < array_size device e w
        → write_word device n fuel e i y s w ≡ ok (true, s', w')
        → ((numeric_value device n (some e) i (s', w')).0
            ≡ word_value device n (descriptor e.pointer w).value_type (some y))
          × ((i == j) ≡ false
              → (numeric_value device n (some e) j (s', w')).0
                ≡ (numeric_value device n (some e) j (s, w)).0)
    unfolding array_size
    numeric_value-shared fuel i j y s w s' w' opened numeric inside h =
        let (got, same, accepted, after) = write_word-eq-ok fuel i y s w s' w' h in
        let w'' = (get_words e.index w).1 in
        let old = ((get_words e.index w).0).1 in
        let words = set_word old i y in
        let still : is_numeric device e w'' ≡ true = ap is_numeric_type (k.get_type w) ∙ numeric in
        let full : length old ≡ array_size device e w = k.filled w got in
        let read =
          λ (p : ℕ). numeric_value-set_words words p s' w'' (same ∙ opened) still accepted in
        let bound : ltb i (array_size device e w) ≡ true = ground (arith, inside) in
        (
          rw after (
              read i
              ∙ rw
                  (
                    k.get_type w,
                    k.get_size w,
                    bound,
                    word_at-set_word_self old i y (omega (arith, full, inside)),
                  )
                  refl),
          λ differs. rw after (
              read j
              ∙ rw (k.get_type w, k.get_size w, word_at-set_word_ne old i j y differs)
                  (sym (numeric_value-before j s w opened numeric ∙ rw got refl))),
        )

    -- A number that is written to an option of words, at an index inside, and answered with true
    -- is read back there as its conversion to a word and from it, and what is read at every other
    -- index is as before, on a device that keeps the words it accepts, gives an array whole, and
    -- changes neither the type nor the size of the option.
    pub set_numeric_value-Written :
        (fuel i : ℕ) (x : D) (s : OptionSet Pointer) (w : World) (s' : OptionSet Pointer)
        (w' : World)
        → i < array_size device e w
        → set_numeric_value device n fuel (some e) i x (s, w) ≡ ok (true, s', w')
        → ((numeric_value device n (some e) i (s', w')).0
            ≡ unfixed device n
                (descriptor e.pointer w).value_type
                (n.of_word (word_of device n (descriptor e.pointer w).value_type x)))
          × ((j : ℕ)
              → (i == j) ≡ false
              → (numeric_value device n (some e) j (s', w')).0
                ≡ (numeric_value device n (some e) j (s, w)).0)
    unfolding set_numeric_value word_value
    set_numeric_value-Written fuel i x s w s' w' inside h =
        let y = word_of device n (descriptor e.pointer w).value_type x in
        let bound : ltb i (array_size device e w) ≡ true = ground (arith, inside) in
        elim (Bool-cases (
          s.has_device
          && is_numeric device e w
          && is_settable device e w
          && is_active device e w)) [
            | inr refused ↦ absurd (ground (arith, rw (refused, set_numeric_value) at h))
            | inl allowed ↦
                let opened : s.has_device ≡ true = ground (arith, allowed) in
                let numeric : is_numeric device e w ≡ true = ground (arith, allowed) in
                elim (Bool-cases (array_size device e w == 1 && i == 0)) [
                  | inl alone ↦
                      let done = rw (allowed, alone, set_numeric_value) at h in
                      let r = λ (j : ℕ).
                        numeric_value-alone fuel i j y s w s' w' opened numeric alone done in
                      ((r i).0, λ j. (r j).1)
                  | inr shared ↦
                      let done = rw (allowed, shared, bound, set_numeric_value) at h in
                      let r = λ (j : ℕ).
                        numeric_value-shared fuel i j y s w s' w' opened numeric inside done in
                      ((r i).0, λ j. (r j).1)
                ]
          ]
