-- ===== src/ScanJob/Buffers.antt =====
-- What is done to a line stays inside the line and inside the gamma table (server/scanjob.cpp).
use air_sane.Prelude.{ℕ, ◌+◌, ◌*◌, ◌<◌, ◌≡◌, List, [], ◌∷◌, ◌==◌, if◌then◌else◌, length, true, All}
use air_sane.Text.{Bytes}
use air_sane.ScanJob.Pixels.{Floats, apply_gamma, gray_bytes, gray_words, synthesize_gray}

abbrev pub AreBytes : Bytes → Type 0
AreBytes = All (λ b. b < 256)

-- The samples of a line of two bytes each.
abbrev pub words : Bytes → List ℕ
words (lo ∷ hi ∷ rest) = (lo + 256 * hi) ∷ words rest
words (lo ∷ []) = []
words [] = []

-- The entries of the table that the gamma correction of a line reads.
abbrev pub indices : List ℕ → Bytes → List ℕ
indices table line =
    if length table == 256 then line else if length table == 65536 then words line else []

-- A line of so many whole pixels of red, green and blue, if its samples have 8 or 16 bits.
pub record HasPixels (bits n : ℕ) (line : Bytes) : Type 0 where
  pub of_bytes : (bits == 8) ≡ true → length line ≡ 3 * n
  pub of_words : (bits == 16) ≡ true → length line ≡ 6 * n

pub record InBounds (f : Floats) (table : List ℕ) (bits n : ℕ) (line : Bytes) : Type 0 where
  pub inside : All (λ i. i < length table) (indices table line)
  pub same_length : length (apply_gamma table line) ≡ length line
  pub bytes : AreBytes (apply_gamma table line)
  pub unread :
      (other : ℕ → ℕ)
      → synthesize_gray (record f { behind = other }) bits line ≡ synthesize_gray f bits line
  pub one_byte_each : (bits == 8) ≡ true → length (gray_bytes f line) ≡ n
  pub two_bytes_each : (bits == 16) ≡ true → length (gray_words f line) ≡ 2 * n
  pub same_buffer : length (synthesize_gray f bits line) ≡ length line
