-- ===== src/Http/Chunks/Reading.antt =====
-- A reader of the chunked transfer encoding, and what it makes of a chunked stream
-- (web/httpserver.cpp).
use air_sane.Prelude.{
  ℕ, zero, suc, ◌+◌, ◌*◌, ◌/◌, ◌%◌, ◌<◌, ◌≡◌, refl, ap, ◌∙◌, ◌==◌, true, false, if◌then◌else◌, List,
  [], ◌∷◌, ◌++◌, append_assoc, Option, none, some, null, take, drop, length, arith, Bool-cases, inl,
  inr, length-append, take-length-append, drop-length-append,
}
use air_sane.Text.{Bytes, codes, starts_with, drop-add}
use air_sane.Uuid.{hex_digit}
use air_sane.Uuid.Printing.{digit_value}
use air_sane.Http.Chunks.{
  hex, Chunkstream, new_chunkstream, write, chunk, sync, close, tell, Action, put, flush, act,
  act_all, said,
}

-- The number before the end of a line, and what follows.
abbrev pub read_size : ℕ → Bytes → Option (ℕ × Bytes)
read_size n [] = none
read_size n (c ∷ s) =
    let rest = read_size (n * 16 + digit_value c) s in
    if c == b'\r' then some (n, drop 1 s) else rest

-- The content of a chunk, in front of what the others hold. A chunk ends with an empty line.
abbrev pub take_chunk : ℕ → Bytes → Option Bytes → Option Bytes
take_chunk n text none = none
take_chunk n text (some t) =
    if starts_with (drop n text) (codes "\r\n") then some (take n text ++ t) else none

abbrev pub chunk_at : (Bytes → Option Bytes) → Option (ℕ × Bytes) → Option Bytes
chunk_at more none = none
chunk_at more (some (n, text)) =
    let rest = take_chunk n text (more (drop (n + 2) text)) in if n == 0 then some [] else rest

-- The content of a chunked text of fewer than `fuel` chunks.
unfoldable pub read_chunks : ℕ → Bytes → Option Bytes
read_chunks zero s = none
read_chunks (suc fuel) s = chunk_at (read_chunks fuel) (read_size 0 s)

abbrev pub power : ℕ → ℕ
power zero = 1
power (suc n) = 16 * power n

hex_digit-read :
    (n : ℕ) → n < 16 → (digit_value (hex_digit n) ≡ n) × ((hex_digit n == b'\r') ≡ false)
unfolding hex_digit
hex_digit-read n h = ground arith

read_size-digit :
    (a n : ℕ) (s : Bytes) → n < 16 → read_size a (hex_digit n ∷ s) ≡ read_size (a * 16 + n) s
read_size-digit a n s h = let (value, no_return) = hex_digit-read n h in rw (no_return, value)

read_size-hex : (k n : ℕ) (s : Bytes) → n < power k → read_size 0 (hex k n ++ s) ≡ read_size n s
unfolding hex
read_size-hex zero n s h = let e : n ≡ 0 = omega arith in rw e
read_size-hex (suc k) n s h =
    let whole : n / 16 * 16 + n % 16 ≡ n = omega arith in
    let last = read_size-digit 0 (n % 16) s (omega arith) in
    elim (Bool-cases (n / 16 == 0)) [
      | inl e ↦
          let small : 0 * 16 + n % 16 ≡ n = ground arith in
          rw e (last ∙ ap (λ m. read_size m s) small)
      | inr e ↦ rw e (
          ap (read_size 0) (append_assoc (hex k (n / 16)) (hex_digit (n % 16) ∷ []) s)
          ∙ (read_size-hex k (n / 16) (hex_digit (n % 16) ∷ s) (omega arith)
              ∙ (read_size-digit (n / 16) (n % 16) s (omega arith)
                  ∙ ap (λ m. read_size m s) whole)))
    ]

read_size-chunk :
    (s rest : Bytes)
    → length s < power 16
    → read_size 0 (chunk s ++ rest) ≡ some (length s, s ++ (codes "\r\n" ++ rest))
unfolding chunk
read_size-chunk s rest small =
    let parts : chunk s ++ rest
        ≡ hex 16 (length s) ++ (codes "\r\n" ++ (s ++ (codes "\r\n" ++ rest))) =
      simp append_assoc in
    ap (read_size 0) parts
    ∙ read_size-hex 16 (length s) (codes "\r\n" ++ (s ++ (codes "\r\n" ++ rest))) small

drop-line : (s rest : Bytes) → drop (length s + 2) (s ++ (codes "\r\n" ++ rest)) ≡ rest
drop-line s rest = drop-add (length s) 2 _ ∙ rw (drop-length-append s (codes "\r\n" ++ rest))

-- A reader takes one chunk off.
read_chunks-chunk :
    (fuel : ℕ) (s rest t : Bytes)
    → null s ≡ false
    → length s < power 16
    → read_chunks fuel rest ≡ some t
    → read_chunks (suc fuel) (chunk s ++ rest) ≡ some (s ++ t)
unfolding read_chunks starts_with
read_chunks-chunk fuel [] rest t full small h = absurd cc
read_chunks-chunk fuel (b ∷ s) rest t full small h =
    let some_bytes : (length (b ∷ s) == 0) ≡ false = ground arith in
    rw
      (
        read_size-chunk (b ∷ s) rest small,
        drop-line (b ∷ s) rest,
        h,
        some_bytes,
        drop-length-append (b ∷ s) (codes "\r\n" ++ rest),
        take-length-append s (codes "\r\n" ++ rest),
      )
      refl

read_chunks-end : (fuel : ℕ) → read_chunks (suc fuel) (codes "0\r\n\r\n") ≡ some []
unfolding read_chunks
read_chunks-end fuel = refl

-- What a stream still writes is a chunked text of what it holds and what it is given.
abbrev Ends : List Action → Chunkstream → Type 0
Ends actions c =
    (tail : Bytes) × ((close (act_all actions c)).out ≡ c.out ++ tail)
    × ((fuel : ℕ)
        → length actions + 1 < fuel
        → read_chunks fuel tail ≡ some (c.buffered ++ said actions))

abbrev IsShort : List Action → Chunkstream → Type 0
IsShort actions c = length c.buffered + length (said actions) < power 16

abbrev Reads : List Action → Bytes → Bytes → Type 0
Reads actions tail s = (fuel : ℕ) → length actions + 1 < fuel → read_chunks fuel tail ≡ some s

close-Ends : (c : Chunkstream) (s : Bytes) → c.buffered ≡ s → length s < power 16 → Ends [] c
unfolding close sync
close-Ends c [] e small = rw e (codes "0\r\n\r\n", refl, last)
  where
    last : Reads [] (codes "0\r\n\r\n") []
    last zero h = absurd (omega arith)
    last (suc fuel) h = read_chunks-end fuel
close-Ends c (b ∷ s) e small = rw e (
  chunk (b ∷ s) ++ codes "0\r\n\r\n",
  append_assoc c.out (chunk (b ∷ s)) (codes "0\r\n\r\n"),
  last,
)
  where
    last : Reads [] (chunk (b ∷ s) ++ codes "0\r\n\r\n") ((b ∷ s) ++ [])
    last zero h = absurd (omega arith)
    last (suc zero) h = absurd (omega arith)
    last (suc (suc fuel)) h =
        read_chunks-chunk (suc fuel) (b ∷ s) (codes "0\r\n\r\n") [] refl small
          (read_chunks-end fuel)

null-nil : (s : Bytes) → null s ≡ true → s ≡ []
null-nil [] h = refl
null-nil (b ∷ s) h = absurd cc

sync-buffered : (c : Chunkstream) → (sync c).buffered ≡ []
unfolding sync
sync-buffered c = elim (Bool-cases (null c.buffered)) [
  | inl e ↦ rw e (null-nil c.buffered e)
  | inr e ↦ rw e
]

-- A flush in front of actions that keep their promise.
sync-Ends :
    (actions : List Action) (c : Chunkstream) (s : Bytes)
    → c.buffered ≡ s
    → length s < power 16
    → Ends actions (sync c)
    → Ends (flush ∷ actions) c
unfolding sync
sync-Ends actions c [] e small (tail, out, reads) =
    let synced : (sync c).out ≡ c.out = rw e refl in
    let held : (sync c).buffered ≡ c.buffered = rw e refl in
    (
      tail,
      out ∙ ap (λ o. o ++ tail) synced,
      λ fuel h. reads fuel (omega (arith, h)) ∙ ap (λ b. some (b ++ said actions)) held,
    )
sync-Ends actions c (b ∷ s) e small (tail, out, reads) =
    let synced : (sync c).out ≡ c.out ++ chunk (b ∷ s) = rw e refl in
    (
      chunk (b ∷ s) ++ tail,
      out ∙ (ap (λ o. o ++ tail) synced ∙ append_assoc c.out (chunk (b ∷ s)) tail),
      rw e all_read,
    )
  where
    all_read : Reads (flush ∷ actions) (chunk (b ∷ s) ++ tail) ((b ∷ s) ++ said actions)
    all_read zero h = absurd (omega arith)
    all_read (suc fuel) h =
        read_chunks-chunk fuel (b ∷ s) tail (said actions) refl small
          (reads fuel (omega (arith, h)) ∙ ap (λ t. some (t ++ said actions)) (sync-buffered c))

act_all-Ends : (actions : List Action) (c : Chunkstream) → IsShort actions c → Ends actions c
unfolding write
act_all-Ends [] c small = close-Ends c c.buffered refl (omega (arith, small))
act_all-Ends (put s ∷ actions) c small =
    let (tail, out, reads) =
      act_all-Ends actions (write s c)
        (omega (arith, small, length-append c.buffered s, length-append s (said actions))) in
    (
      tail,
      out,
      λ fuel h. reads fuel (omega (arith, h)) ∙ ap some (append_assoc c.buffered s (said actions)),
    )
act_all-Ends (flush ∷ actions) c small =
    let none_held : length (sync c).buffered ≡ 0 = ap length (sync-buffered c) in
    sync-Ends actions c c.buffered refl (omega (arith, small))
      (act_all-Ends actions (sync c) (omega (arith, small, none_held)))

tell-act : (a : Action) (c : Chunkstream) → tell (act a c) ≡ tell c + length (said (a ∷ []))
unfolding tell sync write
tell-act (put s) c = omega (arith, length-append c.buffered s, length-append s [])
tell-act flush c = elim (Bool-cases (null c.buffered)) [
  | inl e ↦ rw e (omega arith)
  | inr e ↦ rw e (omega arith)
]

tell-act_all :
    (actions : List Action) (c : Chunkstream)
    → tell (act_all actions c) ≡ tell c + length (said actions)
tell-act_all [] c = omega arith
tell-act_all (put s ∷ actions) c = omega (
  arith,
  tell-act_all actions (write s c),
  tell-act (put s) c,
  length-append s (said actions),
  length-append s [],
)
tell-act_all (flush ∷ actions) c = omega (arith, tell-act_all actions (sync c), tell-act flush c)

-- Whatever is written to a chunked stream, with flushes in between and fewer than 2 ^ 64 bytes in
-- all, a reader of the chunked encoding gets it back from what stands behind the headers when the
-- stream is closed, and the position of the stream is the number of bytes written.
pub read_chunks-close :
    (actions : List Action) (head : Bytes)
    → length (said actions) < power 16
    → (tail : Bytes) × ((close (act_all actions (new_chunkstream head))).out ≡ head ++ tail)
      × ((fuel : ℕ) → length actions + 1 < fuel → read_chunks fuel tail ≡ some (said actions))
      × (tell (act_all actions (new_chunkstream head)) ≡ length (said actions))
unfolding new_chunkstream
read_chunks-close actions head small =
    let c = new_chunkstream head in
    let (tail, out, reads) = act_all-Ends actions c (omega (arith, small)) in
    let none_told : tell c ≡ 0 = unfold tell in omega arith in
    (tail, out, reads, omega (arith, tell-act_all actions c, none_told))
