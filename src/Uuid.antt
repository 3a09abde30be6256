-- ===== src/Uuid.antt =====
-- basic/uuid.cpp: making and printing a uuid. std::hash, the machine id and the random bytes are
-- arguments. A hash has eight bytes.
pub mod Printing
use air_sane.Prelude.{
  ℕ, zero, suc, ◌+◌, ◌*◌, ◌/◌, ◌%◌, ◌-◌, [], ◌∷◌, ◌++◌, ltb, if◌then◌else◌, take, drop, length,
}
use air_sane.Text.{Bytes}

unfoldable pub hex_digit : ℕ → ℕ
hex_digit n = if ltb n 10 then 48 + n else 87 + n

-- `printByteGroup`, for bytes that are given.
unfoldable pub print_byte_group : Bytes → Bytes
unfolding hex_digit
print_byte_group [] = []
print_byte_group (b ∷ bytes) =
    hex_digit ((b / 16) % 16) ∷ hex_digit (b % 16) ∷ print_byte_group bytes

unfoldable pub slice : ℕ → ℕ → Bytes → Bytes
slice start stop bytes = take (stop - start) (drop start bytes)

-- `print`, on the sixteen bytes.
unfoldable pub print : Bytes → Bytes
unfolding print_byte_group slice
print bytes =
    print_byte_group (slice 0 4 bytes)
    ++ (b'-'
        ∷ (print_byte_group (slice 4 6 bytes)
            ++ (b'-'
                ∷ (print_byte_group (slice 6 8 bytes)
                    ++ (b'-'
                        ∷ (print_byte_group (slice 8 10 bytes)
                            ++ (b'-' ∷ print_byte_group (slice 10 16 bytes))))))))

unfoldable pub set_at : ℕ → (ℕ → ℕ) → Bytes → Bytes
set_at i f [] = []
set_at zero f (b ∷ bytes) = f b ∷ bytes
set_at (suc i) f (b ∷ bytes) = b ∷ set_at i f bytes

-- `&= 0x0f`, `|= version`, and `&= 0x3f`, `|= 0x80`.
unfoldable pub mark : ℕ → Bytes → Bytes
unfolding set_at
mark version bytes = set_at 8 (λ b. b % 64 + 128) (set_at 6 (λ b. b % 16 + version) bytes)

-- `Random`.
unfoldable pub random : Bytes → Bytes
unfolding mark
random bytes = mark 64 bytes

-- `a ^ b` on bytes.
unfoldable pub xor_bits : ℕ → ℕ → ℕ → ℕ
xor_bits zero a b = 0
xor_bits (suc n) a b = (a % 2 + b % 2) % 2 + 2 * xor_bits n (a / 2) (b / 2)

unfoldable pub xor_over : Bytes → Bytes → Bytes
unfolding xor_bits
xor_over (b ∷ bytes) (h ∷ hash) = xor_bits 8 b h ∷ xor_over bytes hash
xor_over bytes _ = bytes

-- The first loop: `n` steps of eight bytes from `start`.
unfoldable pub scramble : (Bytes → Bytes) → ℕ → ℕ → Bytes → Bytes
unfolding xor_over
scramble hash zero start s = s
scramble hash (suc n) start s =
    scramble hash n (start + 8) (take start s ++ xor_over (drop start s) (hash s))

-- The second loop. Sixteen bytes are there after two hashes.
unfoldable pub fill : (Bytes → Bytes) → ℕ → Bytes → Bytes
fill hash zero s = s
fill hash (suc n) s = let more = fill hash n (s ++ hash s) in if ltb (length s) 16 then more else s

-- The third loop, from byte `i` of the string.
unfoldable pub fold_bytes : ℕ → Bytes → Bytes → Bytes
unfolding set_at xor_bits
fold_bytes i [] bytes = bytes
fold_bytes i (b ∷ s) bytes = fold_bytes (i + 1) s (set_at (i % 16) (λ a. xor_bits 8 a b) bytes)

abbrev pub sixteen_zeros : Bytes
sixteen_zeros = 0 ∷ 0 ∷ 0 ∷ 0 ∷ 0 ∷ 0 ∷ 0 ∷ 0 ∷ 0 ∷ 0 ∷ 0 ∷ 0 ∷ 0 ∷ 0 ∷ 0 ∷ 0 ∷ []

-- `initFromString`.
unfoldable pub init_from_string : (Bytes → Bytes) → Bytes → Bytes → Bytes
unfolding scramble fill fold_bytes mark
init_from_string hash machine_id text =
    let s = machine_id ++ text in
    mark 80 (fold_bytes 0 (fill hash 2 (scramble hash ((length s + 7) / 8) 0 s)) sixteen_zeros)
