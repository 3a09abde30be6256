-- ===== src/Sane.antt =====
-- sanecpp/sanecpp.cpp and sanecpp/sanecpp.h: the session class over the C interface of SANE.
-- SANE itself is not part of the repository: it is the parameter `Sane`, whose `World` is the state
-- of the backend, of the device and of the clock.
pub mod Session
pub mod Library
use air_sane.Prelude.{ℕ, ◌≡◌, refl, Bool}
use air_sane.Prelude.Int.{ℤ}
use air_sane.Text.{Bytes}

pub data SaneStatus : Type 0 where
  good unsupported cancelled device_busy inval eof jammed no_docs cover_open : SaneStatus
  io_error no_mem access_denied : SaneStatus
  -- a code that the SANE standard does not define
  other : ℕ → SaneStatus

-- The fields of SANE_Parameters that the program reads.
pub record Parameters : Type 0 where
  pub bytes_per_line : ℕ
  pub pixels_per_line : ℕ
  pub lines : ℤ
  pub depth : ℕ

-- The calls of the C interface. `read n` asks for at most `n` bytes. `configure` stands for the
-- writes to the options of an open device, and says whether they were taken.
pub record Sane : Type 1 where
  pub World : Type 0
  pub Settings : Type 0
  pub time : World → ℕ
  pub sane_open : World → SaneStatus × World
  pub configure : Settings → World → Bool × World
  pub sane_start : World → SaneStatus × World
  pub sane_get_parameters : World → (SaneStatus × Parameters) × World
  pub sane_read : ℕ → World → (SaneStatus × Bytes) × World
  pub sane_cancel : World → World
  pub sane_close : World → World

-- A computation that ends, that has not ended within its fuel, or that dereferences a null pointer
-- or lets an exception escape.
pub data Run {ℓ} (A : Type ℓ) : Type ℓ where
  ok : A → Run A
  out_of_fuel : Run A
  crash : Run A

infixl 5 ◌>>=◌
abbrev pub ◌>>=◌ {ℓ κ} : {A : Type ℓ} {B : Type κ} → Run A → (A → Run B) → Run B
out_of_fuel >>= next = out_of_fuel
crash >>= next = crash
ok x >>= next = next x

-- What a bind that ends says of its parts.
pub >>=-eq-ok {ℓ κ} :
    {A : Type ℓ} {B : Type κ} (first : Run A) (next : A → Run B) {last : B}
    → (first >>= next) ≡ ok last
    → (x : A) × (first ≡ ok x) × (next x ≡ ok last)
>>=-eq-ok crash next e = cc
>>=-eq-ok out_of_fuel next e = cc
>>=-eq-ok (ok x) next e = (x, refl, e)
