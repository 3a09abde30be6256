-- ===== src/ScanJob/Setup/Tables.antt =====
-- The size of a gamma table for the bit depths that there can be (server/scanjob.cpp).
use air_sane.Prelude.{
  ℕ, zero, suc, ◌+◌, ◌-◌, ◌*◌, ◌%◌, ◌^◌, ◌<◌, ◌≤◌, ◌≡◌, refl, ap, ◌∙◌, true, false, ◌||◌, List, [],
  leb, length, arith, Bool-cases, ◌⊎◌, inl, inr,
}
use native.Mathlib.Nat.{pow-le-pow_right, pow-succ'}
use air_sane.Text.{Bytes}
use air_sane.Sane.{Run, ok, crash}
use air_sane.ScanJob.Setup.{Doubles, Features, curve_from, table_size, init_gamma_table}

power-wraps : (k : ℕ) → 2 ^ (k + 32) % 4294967296 ≡ 0
power-wraps zero = refl
power-wraps (suc k) =
    let twice : 2 ^ (suc k + 32) ≡ 2 * 2 ^ (k + 32) =
      ap (λ n. 2 ^ n) (omega arith) ∙ pow-succ' 2 (k + 32) in
    omega (arith, twice, power-wraps k)

module _ {D : Type 0} (f : Doubles D) (scanner : Features D) (get_string : Bytes → Bytes) where
  size : ℕ → ℕ
  size = table_size f scanner get_string

  size-small : (n : ℕ) → n < 31 → (size n ≡ 2 ^ n) × (2 ^ n < 2147483648)
  unfolding size
  size-small n h =
      let bound : 2 ^ n ≤ 1073741824 =
        pow-le-pow_right {n = 2} (omega arith) {i = n} {j = 30} (omega (arith, h)) in
      (omega (arith, bound), omega (arith, bound))

  size-large : (n : ℕ) → 32 ≤ n → size n ≡ 0
  unfolding size
  size-large n h = ap (λ m. 2 ^ m % 4294967296) (omega (arith, h)) ∙ power-wraps (n - 32)

  size-middle : size 31 ≡ 2147483648
  unfolding size
  size-middle = refl

  length-curve_from :
      (gamma : D) (size i n : ℕ) → length (curve_from f scanner get_string gamma size i n) ≡ n
  length-curve_from gamma size i zero = refl
  length-curve_from gamma size i (suc n) = ap suc (length-curve_from gamma size (i + 1) n)

  -- What becomes of a gamma table for a bit depth.
  pub data Table (gamma : D) (bits : ℕ) : Run (List ℕ) → Type 0 where
    linear : f.is_unit gamma ≡ true → Table gamma bits (ok [])
    full :
        {table : List ℕ}
        → f.is_unit gamma ≡ false
        → bits < 31
        → length table ≡ 2 ^ bits
        → Table gamma bits (ok table)
    wrapped : f.is_unit gamma ≡ false → 32 ≤ bits → bits < 64 → Table gamma bits (ok [])
    broken : f.is_unit gamma ≡ false → (bits ≡ 31) ⊎ (64 ≤ bits) → Table gamma bits crash

  table-bent :
      (gamma : D) (bits : ℕ)
      → f.is_unit gamma ≡ false
      → (leb 64 bits || leb 2147483648 (size bits) ≡ false
          → Table gamma bits (ok (curve_from f scanner get_string gamma (size bits) 0 (size bits))))
        × (leb 64 bits || leb 2147483648 (size bits) ≡ true → Table gamma bits crash)
  table-bent gamma bits bent = elim (Bool-cases (leb bits 30)) [
    | inl small ↦
        let (same, below) = size-small bits (ground (arith, small)) in
        (
          λ fits.
              full bent (ground (arith, small))
                (length-curve_from gamma (size bits) 0 (size bits) ∙ same),
          λ over. absurd (ground (arith, over, same, below, small)),
        )
    | inr big ↦ elim (Bool-cases (leb 32 bits)) [
      | inl large ↦
          let nothing = size-large bits (ground (arith, large)) in
          (
            λ fits. rw nothing (wrapped bent (ground (arith, large)) (ground (arith, fits))),
            λ over. broken bent (inr (ground (arith, over, nothing))),
          )
      | inr medium ↦
          let here : bits ≡ 31 = ground (arith, big, medium) in
          (
            λ fits. absurd (ground (arith, fits, ap size here ∙ size-middle)),
            λ over. broken bent (inl here),
          )
    ]
  ]

  pub init_gamma_table-Table :
      (gamma : D) (bits : ℕ) → Table gamma bits (init_gamma_table f scanner get_string gamma bits)
  unfolding init_gamma_table size
  init_gamma_table-Table gamma bits = elim (Bool-cases (f.is_unit gamma)) [
    | inl unit ↦ rw unit (linear unit)
    | inr bent ↦
        let (fits, over) = table-bent gamma bits bent in
        elim (Bool-cases (leb 64 bits || leb 2147483648 (size bits))) [
          | inl yes_over ↦ rw (bent, yes_over) (over yes_over)
          | inr no_over ↦ rw (bent, no_over) (fits no_over)
        ]
  ]
