-- ===== src/Uuid/Printing.antt =====
-- The printed form of a uuid and its version (basic/uuid.cpp).
use air_sane.Prelude.{
  ℕ, zero, suc, ◌+◌, ◌*◌, ◌/◌, ◌%◌, ◌-◌, ◌<◌, ◌≡◌, refl, sym, ap, ◌∙◌, [], ◌∷◌, ◌++◌, false, ltb,
  ◌==◌, arith, if◌then◌else◌, take, drop, length, take-append-drop, append-nil, All, Option, none,
  some,
}
use air_sane.Text.{Bytes, drop-add}
use air_sane.Uuid.{
  hex_digit, print_byte_group, slice, print, set_at, mark, random, fold_bytes, xor_bits,
  sixteen_zeros, fill, scramble, init_from_string,
}

-- The number of a hexadecimal digit in lower case.
abbrev pub digit_value : ℕ → ℕ
digit_value c = if ltb c 58 then c - 48 else c - 87

-- Bytes from pairs of digits, with dashes between the pairs.
abbrev pub unhex : Option ℕ → Bytes → Bytes
unhex high [] = []
unhex none (c ∷ s) = if c == b'-' then unhex none s else unhex (some (digit_value c)) s
unhex (some high) (c ∷ s) = (high * 16 + digit_value c) ∷ unhex none s

digit_value-hex_digit :
    (n : ℕ) → n < 16 → (digit_value (hex_digit n) ≡ n) × ((hex_digit n == b'-') ≡ false)
unfolding hex_digit
digit_value-hex_digit n h = ground arith

unhex-print_byte_group :
    (bytes s : Bytes)
    → All (λ b. b < 256) bytes
    → unhex none (print_byte_group bytes ++ s) ≡ bytes ++ unhex none s
unfolding print_byte_group
unhex-print_byte_group [] s h = refl
unhex-print_byte_group (b ∷ bytes) s (small, h) =
    let (high, no_dash) = digit_value-hex_digit ((b / 16) % 16) (omega arith) in
    let (low, _) = digit_value-hex_digit (b % 16) (omega arith) in
    let whole : (b / 16) % 16 * 16 + b % 16 ≡ b = omega (arith, small) in
    rw (no_dash, unhex) (rw (high, low, whole) (ap (λ t. b ∷ t) (unhex-print_byte_group bytes s h)))

All-take : (n : ℕ) (bytes : Bytes) → All (λ b. b < 256) bytes → All (λ b. b < 256) (take n bytes)
All-take zero bytes h = tt
All-take (suc n) [] h = tt
All-take (suc n) (b ∷ bytes) (small, h) = (small, All-take n bytes h)

All-drop : (n : ℕ) (bytes : Bytes) → All (λ b. b < 256) bytes → All (λ b. b < 256) (drop n bytes)
All-drop zero bytes h = h
All-drop (suc n) [] h = tt
All-drop (suc n) (b ∷ bytes) (small, h) = All-drop n bytes h

All-slice :
    (i k : ℕ) (bytes : Bytes) → All (λ b. b < 256) bytes → All (λ b. b < 256) (slice i k bytes)
unfolding slice
All-slice i k bytes h = All-take (k - i) (drop i bytes) (All-drop i bytes h)

take-all : (n : ℕ) (bytes : Bytes) → length bytes ≡ n → take n bytes ≡ bytes
take-all zero [] h = refl
take-all zero (b ∷ bytes) h = absurd (omega (arith, h))
take-all (suc n) [] h = refl
take-all (suc n) (b ∷ bytes) h = ap (λ t. b ∷ t) (take-all n bytes (omega (arith, h)))

slice-drop : (i k : ℕ) (bytes : Bytes) → slice i (i + k) bytes ++ drop (i + k) bytes ≡ drop i bytes
unfolding slice
slice-drop i k bytes =
    let size : i + k - i ≡ k = omega arith in
    rw size (rw (drop-add i k bytes) (take-append-drop k (drop i bytes)))

length-drop : (n : ℕ) (bytes : Bytes) → length (drop n bytes) ≡ length bytes - n
length-drop zero bytes = omega arith
length-drop (suc n) [] = omega arith
length-drop (suc n) (b ∷ bytes) = omega (arith, length-drop n bytes)

slices :
    (bytes : Bytes)
    → length bytes ≡ 16
    → slice 0 4 bytes
        ++ (slice 4 6 bytes ++ (slice 6 8 bytes ++ (slice 8 10 bytes ++ slice 10 16 bytes)))
      ≡ bytes
slices bytes h =
    let last : slice 10 16 bytes ≡ drop 10 bytes =
      unfold slice in take-all 6 (drop 10 bytes) (omega (arith, length-drop 10 bytes, h)) in
    rw last (
      rw (slice-drop 8 2 bytes)
        (rw (slice-drop 6 2 bytes) (rw (slice-drop 4 2 bytes) (slice-drop 0 4 bytes))))

-- The sixteen bytes of a uuid are read back from its printed form as pairs of digits with dashes
-- between them.
pub unhex-print :
    (bytes : Bytes)
    → length bytes ≡ 16
    → All (λ b. b < 256) bytes
    → unhex none (print bytes) ≡ bytes
unfolding print
unhex-print bytes l h =
    unhex-print_byte_group (slice 0 4 bytes) _ (All-slice 0 4 bytes h)
    ∙ ap (λ t. slice 0 4 bytes ++ t)
        (unhex-print_byte_group (slice 4 6 bytes) _ (All-slice 4 6 bytes h)
          ∙ ap (λ t. slice 4 6 bytes ++ t)
              (unhex-print_byte_group (slice 6 8 bytes) _ (All-slice 6 8 bytes h)
                ∙ ap (λ t. slice 6 8 bytes ++ t)
                    (unhex-print_byte_group (slice 8 10 bytes) _ (All-slice 8 10 bytes h)
                      ∙ ap (λ t. slice 8 10 bytes ++ t)
                          (ap (unhex none) (sym (append-nil (print_byte_group (slice 10 16 bytes))))
                            ∙ unhex-print_byte_group (slice 10 16 bytes) []
                                (All-slice 10 16 bytes h)
                            ∙ append-nil (slice 10 16 bytes)))))
    ∙ slices bytes l

-- `b` is the byte of a list at a place, or 0.
abbrev pub byte_at : ℕ → Bytes → ℕ
byte_at i [] = 0
byte_at zero (b ∷ bytes) = b
byte_at (suc i) (b ∷ bytes) = byte_at i bytes

byte_at-set_at :
    (i : ℕ) (f : ℕ → ℕ) (bytes : Bytes)
    → i < length bytes
    → byte_at i (set_at i f bytes) ≡ f (byte_at i bytes)
unfolding set_at
byte_at-set_at i f [] h = absurd (omega arith)
byte_at-set_at zero f (b ∷ bytes) h = refl
byte_at-set_at (suc i) f (b ∷ bytes) h = byte_at-set_at i f bytes (omega arith)

byte_at-other :
    (i k : ℕ) (f : ℕ → ℕ) (bytes : Bytes) → i < k → byte_at i (set_at k f bytes) ≡ byte_at i bytes
unfolding set_at
byte_at-other i k f [] h = refl
byte_at-other i zero f (b ∷ bytes) h = absurd (omega arith)
byte_at-other zero (suc k) f (b ∷ bytes) h = refl
byte_at-other (suc i) (suc k) f (b ∷ bytes) h = byte_at-other i k f bytes (omega arith)

length-set_at : (i : ℕ) (f : ℕ → ℕ) (bytes : Bytes) → length (set_at i f bytes) ≡ length bytes
unfolding set_at
length-set_at i f [] = refl
length-set_at zero f (b ∷ bytes) = refl
length-set_at (suc i) f (b ∷ bytes) = omega (arith, length-set_at i f bytes)

length-fold_bytes : (i : ℕ) (s bytes : Bytes) → length (fold_bytes i s bytes) ≡ length bytes
unfolding fold_bytes
length-fold_bytes i [] bytes = refl
length-fold_bytes i (b ∷ s) bytes =
    length-fold_bytes (i + 1) s (set_at (i % 16) (λ a. xor_bits 8 a b) bytes)
    ∙ length-set_at (i % 16) (λ a. xor_bits 8 a b) bytes

-- A version, and the variant of RFC 4122.
abbrev pub IsMarked : ℕ → Bytes → Type 0
IsMarked version bytes =
    (length bytes ≡ 16) × (byte_at 6 bytes / 16 ≡ version) × (byte_at 8 bytes / 64 ≡ 2)

mark-IsMarked :
    (version : ℕ) (bytes : Bytes) → length bytes ≡ 16 → IsMarked version (mark (16 * version) bytes)
unfolding mark
mark-IsMarked version bytes h =
    let f = λ (b : ℕ). b % 16 + 16 * version in
    let g = λ (b : ℕ). b % 64 + 128 in
    let six = byte_at-set_at 6 f bytes (omega (arith, h)) in
    let eight = byte_at-set_at 8 g (set_at 6 f bytes) (omega (arith, h, length-set_at 6 f bytes)) in
    (
      length-set_at 8 g (set_at 6 f bytes) ∙ length-set_at 6 f bytes ∙ h,
      rw (byte_at-other 6 8 g (set_at 6 f bytes) (omega arith)) (rw six (omega arith)),
      rw eight (omega arith),
    )

-- A uuid that is made from a string has sixteen bytes, version 5 and the variant of RFC 4122,
-- whatever the hash; one that is made from sixteen random bytes has sixteen bytes, version 4 and
-- that variant.
pub init_from_string-IsMarked :
    (hash : Bytes → Bytes) (machine_id text noise : Bytes)
    → length noise ≡ 16
    → IsMarked 5 (init_from_string hash machine_id text) × IsMarked 4 (random noise)
unfolding init_from_string random
init_from_string-IsMarked hash machine_id text noise h = (
  let s = machine_id ++ text in
      mark-IsMarked 5 _
        (length-fold_bytes 0 (fill hash 2 (scramble hash ((length s + 7) / 8) 0 s)) sixteen_zeros),
  mark-IsMarked 4 noise h,
)
