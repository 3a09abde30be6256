-- ===== src/AccessFile/Masks.antt =====
-- Networks whose prefix is a whole number of bytes (web/accessfile.cpp).
use air_sane.Prelude.{
  ℕ, zero, suc, ◌+◌, ◌*◌, ◌/◌, ◌≤◌, ◌<◌, ◌≡◌, ◌-◌, refl, sym, ap, ◌∙◌, true, false, ◌&&◌, [], ◌∷◌,
  arith, length, take, All, ltb, ◌==◌,
}
use air_sane.Prelude.Int.{pos}
use air_sane.Text.{Bytes, equal}
use air_sane.AccessFile.{
  Family, other_family, Sockaddr, inet, inet6, same_family, width, set_mask_bits, set_bits, zeros,
  and_bits, match_bytes, match_addresses,
}

-- A mask of `n` whole bytes out of `n + k`.
abbrev pub byte_mask : ℕ → ℕ → Bytes
byte_mask zero k = zeros k
byte_mask (suc n) k = 255 ∷ byte_mask n k

and_bits-255 : (a : ℕ) → a < 256 → and_bits 8 a 255 ≡ a
unfolding and_bits
and_bits-255 a h = omega arith

and_bits-0 : (n a : ℕ) → and_bits n a 0 ≡ 0
unfolding and_bits
and_bits-0 zero a = refl
and_bits-0 (suc n) a = omega (arith, and_bits-0 n (a / 2))

match_bytes-zeros : (k : ℕ) (a b : Bytes) → match_bytes a b (zeros k) ≡ true
unfolding match_bytes
match_bytes-zeros zero [] b = refl
match_bytes-zeros zero (x ∷ a) [] = refl
match_bytes-zeros zero (x ∷ a) (y ∷ b) = refl
match_bytes-zeros (suc k) [] b = refl
match_bytes-zeros (suc k) (x ∷ a) [] = refl
match_bytes-zeros (suc k) (x ∷ a) (y ∷ b) =
    rw (and_bits-0 8 x, match_bytes) (rw (and_bits-0 8 y, match_bytes) (match_bytes-zeros k a b))

match_bytes-byte_mask :
    (n k : ℕ) (a b : Bytes)
    → length a ≡ n + k
    → length b ≡ n + k
    → All (λ x. x < 256) a
    → All (λ x. x < 256) b
    → match_bytes a b (byte_mask n k) ≡ equal (take n a) (take n b)
unfolding match_bytes equal
match_bytes-byte_mask zero k a b la lb ba bb = match_bytes-zeros k a b
match_bytes-byte_mask (suc n) k [] b la lb ba bb = absurd (omega (arith, la))
match_bytes-byte_mask (suc n) k (x ∷ a) [] la lb ba bb = absurd (omega (arith, lb))
match_bytes-byte_mask (suc n) k (x ∷ a) (y ∷ b) la lb (bx, ba) (by_, bb) =
    rw (and_bits-255 x bx, match_bytes)
      (rw (and_bits-255 y by_, match_bytes)
        (ap (λ t. x == y && t)
          (match_bytes-byte_mask n k a b (omega (arith, la)) (omega (arith, lb)) ba bb)))

set_bits-byte_mask :
    (f : Family) (n : ℕ)
    → n ≤ width f
    → set_bits (8 * n) (zeros (width f)) ≡ byte_mask n (width f - n)
unfolding set_bits
set_bits-byte_mask inet zero h = refl
set_bits-byte_mask inet (suc zero) h = refl
set_bits-byte_mask inet (suc (suc zero)) h = refl
set_bits-byte_mask inet (suc (suc (suc zero))) h = refl
set_bits-byte_mask inet (suc (suc (suc (suc zero)))) h = refl
set_bits-byte_mask inet (suc (suc (suc (suc (suc n))))) h = absurd (omega arith)
set_bits-byte_mask inet6 zero h = refl
set_bits-byte_mask inet6 (suc zero) h = refl
set_bits-byte_mask inet6 (suc (suc zero)) h = refl
set_bits-byte_mask inet6 (suc (suc (suc zero))) h = refl
set_bits-byte_mask inet6 (suc (suc (suc (suc zero)))) h = refl
set_bits-byte_mask inet6 (suc (suc (suc (suc (suc zero))))) h = refl
set_bits-byte_mask inet6 (suc (suc (suc (suc (suc (suc zero)))))) h = refl
set_bits-byte_mask inet6 (suc (suc (suc (suc (suc (suc (suc zero))))))) h = refl
set_bits-byte_mask inet6 (suc (suc (suc (suc (suc (suc (suc (suc zero)))))))) h = refl
set_bits-byte_mask inet6 (suc (suc (suc (suc (suc (suc (suc (suc (suc zero))))))))) h = refl
set_bits-byte_mask inet6 (suc (suc (suc (suc (suc (suc (suc (suc (suc (suc zero)))))))))) h = refl
set_bits-byte_mask inet6 (suc (suc (suc (suc (suc (suc (suc (suc (suc (suc (suc zero))))))))))) h =
    refl
set_bits-byte_mask inet6
      (suc (suc (suc (suc (suc (suc (suc (suc (suc (suc (suc (suc zero)))))))))))) h =
    refl
set_bits-byte_mask inet6
      (suc (suc (suc (suc (suc (suc (suc (suc (suc (suc (suc (suc (suc zero))))))))))))) h =
    refl
set_bits-byte_mask inet6
      (suc (suc (suc (suc (suc (suc (suc (suc (suc (suc (suc (suc (suc (suc zero)))))))))))))) h =
    refl
set_bits-byte_mask inet6
      (suc (suc (suc (suc (suc (suc (suc (suc (suc (suc (suc (suc (suc (suc (suc zero)))))))))))))))
      h =
    refl
set_bits-byte_mask inet6
      (suc (
        suc
          (suc (suc (suc (suc (suc (suc (suc (suc (suc (suc (suc (suc (suc (suc zero))))))))))))))))
      h =
    refl
set_bits-byte_mask inet6
      (suc (
        suc (
          suc
            (suc (suc (suc (suc (suc (suc (suc (suc (suc (suc (suc (suc (suc (suc n)))))))))))))))))
      h =
    absurd (omega arith)
set_bits-byte_mask other_family zero h = refl
set_bits-byte_mask other_family (suc n) h = absurd (omega arith)

-- The address of a family: its bytes
pub record IsAddress (f : Family) (a : Sockaddr) : Type 0 where
  pub is_family : a.family ≡ f
  pub has_width : length a.data_bytes ≡ width f
  pub are_bytes : All (λ x. x < 256) a.data_bytes

same_family_refl : (f : Family) → same_family f f ≡ true
same_family_refl f = ground arith

-- For a network and an address of one of the two families, both of the bytes of that family, and
-- a prefix of whole bytes that is not longer than an address: the mask is made, and the address
-- matches the network under it exactly if the two agree in the bytes of the prefix.
pub match_addresses-set_mask_bits :
    (f : Family) (n : ℕ) (a net : Sockaddr)
    → IsAddress f a
    → IsAddress f net
    → 0 < width f
    → n ≤ width f
    → ((set_mask_bits net (pos (8 * n))).0 ≡ true)
      × (match_addresses a net (set_mask_bits net (pos (8 * n))).1
          ≡ equal (take n a.data_bytes) (take n net.data_bytes))
unfolding set_mask_bits match_addresses
match_addresses-set_mask_bits f n a net va vn w h =
    let fits : ltb (8 * width f) (8 * n) ≡ false = ground (arith, h) in
    let some_width : (width f == 0) ≡ false = ground (arith, w) in
    let parts : n + (width f - n) ≡ width f = omega (arith, h) in
    let matched : match_bytes a.data_bytes net.data_bytes (byte_mask n (width f - n))
        ≡ equal (take n a.data_bytes) (take n net.data_bytes) =
      match_bytes-byte_mask n (width f - n) a.data_bytes net.data_bytes (va.has_width ∙ sym parts)
        (vn.has_width ∙ sym parts) va.are_bytes vn.are_bytes in
    rw (vn.is_family, set_mask_bits)
      (rw (fits, some_width, set_mask_bits)
        (refl, rw (va.is_family, same_family_refl f) (rw (set_bits-byte_mask f n h) matched)))
