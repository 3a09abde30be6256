-- ===== src/AccessFile.antt =====
-- web/accessfile.cpp and web/accessfile.h: the rules that allow or deny an address.
-- The child Parsing has the constructor. Opening the file is not modelled.
pub mod Rules
pub mod Masks
pub mod Parsing
pub mod Reading
use air_sane.Prelude.{
  ℕ, zero, suc, ◌+◌, ◌*◌, ◌/◌, ◌%◌, ◌^◌, ◌&&◌, ◌||◌, Bool, true, false, List, [], ◌∷◌, null, ltb,
  ◌==◌, if◌then◌else◌,
}
use air_sane.Prelude.Int.{ℤ, pos, negsuc}
use air_sane.Text.{Bytes}

-- The address families that the code tells apart.
pub data Family : Type 0 where
  inet inet6 other_family : Family

abbrev pub same_family : Family → Family → Bool
same_family inet inet = true
same_family inet6 inet6 = true
same_family other_family other_family = true
same_family _ _ = false

-- A socket address with the bytes of `sin_addr` or `sin6_addr`, in network order.
pub record Sockaddr : Type 0 where
  pub family : Family
  pub data_bytes : Bytes

-- The bytes of an address.
abbrev pub width : Family → ℕ
width inet = 4
width inet6 = 16
width other_family = 0

abbrev pub zeros : ℕ → Bytes
zeros zero = []
zeros (suc n) = 0 ∷ zeros n

-- `b |= 1 << bit`.
unfoldable pub set_bit : ℕ → ℕ → ℕ
set_bit bit b = if (b / 2 ^ bit) % 2 == 1 then b else b + 2 ^ bit

unfoldable pub set_bit_at : ℕ → ℕ → Bytes → Bytes
unfolding set_bit
set_bit_at i bit [] = []
set_bit_at zero bit (b ∷ bytes) = set_bit bit b ∷ bytes
set_bit_at (suc i) bit (b ∷ bytes) = b ∷ set_bit_at i bit bytes

-- The loop over the bits below `n`.
unfoldable pub set_bits : ℕ → Bytes → Bytes
unfolding set_bit_at
set_bits zero bytes = bytes
set_bits (suc i) bytes = set_bit_at (i / 8) (i % 8) (set_bits i bytes)

abbrev pub bits_of : ℤ → ℕ
bits_of (pos n) = n
bits_of (negsuc n) = 0

-- `SetMaskBits`, with what it answers.
unfoldable pub set_mask_bits : Sockaddr → ℤ → Bool × Sockaddr
unfolding set_bits
set_mask_bits mask bits =
    let set : Bool × Sockaddr =
      (true, record mask { data_bytes = set_bits (bits_of bits) (zeros (width mask.family)) }) in
    if ltb (8 * width mask.family) (bits_of bits)
    then (false, mask)
    else if width mask.family == 0
    then (false, mask)
    else set

-- `a & b` for numbers of `n` bits.
unfoldable pub and_bits : ℕ → ℕ → ℕ → ℕ
and_bits zero a b = 0
and_bits (suc n) a b = (a % 2) * (b % 2) + 2 * and_bits n (a / 2) (b / 2)

-- The loop of `MatchAddresses`.
unfoldable pub match_bytes : Bytes → Bytes → Bytes → Bool
unfolding and_bits
match_bytes (a ∷ xs) (b ∷ ys) (m ∷ ms) = and_bits 8 a m == and_bits 8 b m && match_bytes xs ys ms
match_bytes _ _ _ = true

-- `MatchAddresses`, for a network and a mask of one family.
unfoldable pub match_addresses : Sockaddr → Sockaddr → Sockaddr → Bool
unfolding match_bytes
match_addresses a b mask =
    if same_family a.family b.family
    then match_bytes a.data_bytes b.data_bytes mask.data_bytes
    else false

pub data Verdict : Type 0 where
  allow deny no_match : Verdict

pub record Network : Type 0 where
  pub address : Sockaddr
  pub mask : Sockaddr

pub record Entry : Type 0 where
  pub kind : Verdict
  pub rule : Bytes
  pub networks : List Network

unfoldable pub match_networks : Sockaddr → List Network → Bool
match_networks a [] = false
match_networks a (n ∷ ns) = match_addresses a n.address n.mask || match_networks a ns

-- `Entry::match`.
unfoldable pub match_entry : Entry → Sockaddr → Verdict
match_entry e a = if match_networks a e.networks then e.kind else no_match

unfoldable pub first_verdict : List Entry → Sockaddr → Bool
first_verdict [] a = false
first_verdict (e ∷ es) a = elim (match_entry e a) [
  | allow ↦ true
  | deny ↦ false
  | no_match ↦ first_verdict es a
]

-- `isAllowed`.
unfoldable pub is_allowed : List Entry → Sockaddr → Bool
is_allowed es a = if null es then true else first_verdict es a
