-- ===== src/Text.antt =====
-- Strings as lists of bytes, with the operations of std::string that the sources use.
-- `find` and its kin answer `none` for npos.
use Prim.Native.Char.{code}
use Prim.Native.String.{String}
use air_sane.Prelude.{
  ◌+◌, sym, ◌∙◌, zero, ℕ, suc, null, ◌≡◌, refl, ◌↔◌, Bool, true, false, ◌&&◌, List, [], ◌∷◌, ◌++◌,
  Option, none, some, arith, ◌==◌, if◌then◌else◌, length, take, drop, All,
}

abbrev pub Bytes : Type 0
Bytes = List ℕ

-- The bytes of an ASCII literal.
abbrev pub codes : String → Bytes
codes String.[] = []
codes (String.◌∷◌ c s) = code c ∷ codes s

-- `a == b` on std::string.
unfoldable pub equal : Bytes → Bytes → Bool
equal [] t = null t
equal (x ∷ s) [] = false
equal (x ∷ s) (y ∷ t) = x == y && equal s t

pub equal_iff : (s t : Bytes) → (equal s t ≡ true) ↔ (s ≡ t)
unfolding equal
equal_iff [] [] = ground arith
equal_iff [] (y ∷ t) = ground arith
equal_iff (x ∷ s) [] = ground arith
equal_iff (x ∷ s) (y ∷ t) = ground (arith, equal_iff s t)

pub equal_refl : (a : Bytes) → equal a a ≡ true
equal_refl a = (equal_iff a a).1 refl

-- `s.find(t) == 0`, that is `s.rfind(t, 0) == 0`.
unfoldable pub starts_with : Bytes → Bytes → Bool
starts_with s [] = true
starts_with [] (x ∷ t) = false
starts_with (y ∷ s) (x ∷ t) = y == x && starts_with s t

-- `s.find(c)`.
unfoldable pub find_byte : ℕ → Bytes → Option ℕ
find_byte c [] = none
find_byte c (x ∷ s) =
    if x == c then some 0 else elim (find_byte c s) [ none ↦ none | some n ↦ some (suc n) ]

-- `s.find(t)`.
unfoldable pub find : Bytes → Bytes → Option ℕ
unfolding starts_with
find t [] = if starts_with [] t then some 0 else none
find t (x ∷ s) =
    if starts_with (x ∷ s) t
    then some 0
    else elim (find t s) [ none ↦ none | some n ↦ some (suc n) ]

-- `s.substr(pos, n)`, for a `pos` that is in range.
abbrev pub substr : ℕ → ℕ → Bytes → Bytes
substr pos n s = take n (drop pos s)

abbrev pub Lacks : ℕ → Bytes → Type 0
Lacks c = All (λ x. (x == c) ≡ false)

pub find_byte-Lacks : (c : ℕ) (s : Bytes) → Lacks c s → find_byte c s ≡ none
unfolding find_byte
find_byte-Lacks c [] h = refl
find_byte-Lacks c (x ∷ s) h = ground (arith, find_byte-Lacks c s h.1)

pub find_byte-append :
    (c : ℕ) (s t : Bytes) → Lacks c s → find_byte c (s ++ c ∷ t) ≡ some (length s)
unfolding find_byte
find_byte-append c [] t h = ground arith
find_byte-append c (x ∷ s) t h = ground (arith, find_byte-append c s t h.1)

pub Lacks-append : (c : ℕ) (s t : Bytes) → Lacks c s → Lacks c t → Lacks c (s ++ t)
Lacks-append c [] t h k = k
Lacks-append c (x ∷ s) t h k = (h.0, Lacks-append c s t h.1 k)

pub starts_with-append : (t s : Bytes) → starts_with (t ++ s) t ≡ true
unfolding starts_with
starts_with-append [] s = refl
starts_with-append (x ∷ t) s = ground (arith, starts_with-append t s)

pub starts_with_split : (s t : Bytes) → starts_with s t ≡ true → s ≡ t ++ drop (length t) s
unfolding starts_with
starts_with_split s [] h = refl
starts_with_split [] (x ∷ t) h = cc
starts_with_split (y ∷ s) (x ∷ t) h = ground (arith, starts_with_split s t)

pub drop-nil : (k : ℕ) → drop {A = ℕ} k [] ≡ []
drop-nil zero = refl
drop-nil (suc k) = refl

pub drop-add : (n m : ℕ) (s : Bytes) → drop (n + m) s ≡ drop m (drop n s)
drop-add zero m s = let e : zero + m ≡ m = omega arith in rw e
drop-add (suc n) m [] = drop-nil (suc n + m) ∙ sym (drop-nil m)
drop-add (suc n) m (x ∷ s) = let e : suc n + m ≡ suc (n + m) = omega arith in rw e (drop-add n m s)
