-- ===== src/ScanJob/Pixels.antt =====
-- What is done to the bytes of a line between the device and the encoder: `applyGamma` and
-- `synthesizeGray`. Samples of two bytes are read as on a little-endian machine. The arithmetic of
-- type float is the parameter `Floats`.
use air_sane.Prelude.{
  ℕ, ◌+◌, ◌*◌, ◌/◌, ◌%◌, List, [], ◌∷◌, ◌++◌, map, ◌==◌, if◌then◌else◌, length, take, drop, zero,
  suc,
}
use air_sane.Text.{Bytes}

-- The weighted sum of red, green and blue in a sample of the given number of bits, rounded and
-- limited as in `synthesizeGray`. `behind` are the bytes that stand behind the buffer of the line.
pub record Floats : Type 0 where
  pub gray : ℕ → ℕ → ℕ → ℕ → ℕ
  pub behind : ℕ → ℕ

-- `table[i]`, for an index that is in range.
unfoldable pub table_at : List ℕ → ℕ → ℕ
table_at [] i = 0
table_at (x ∷ xs) zero = x
table_at (x ∷ xs) (suc i) = table_at xs i

-- The table is one of uint16_t; a byte keeps the low half of its entry.
unfoldable pub gamma_bytes : List ℕ → Bytes → Bytes
unfolding table_at
gamma_bytes table = map (λ b. table_at table b % 256)

unfoldable pub gamma_words : List ℕ → Bytes → Bytes
unfolding table_at
gamma_words table (lo ∷ hi ∷ rest) =
    let v = table_at table (lo + 256 * hi) in (v % 256) ∷ ((v / 256) % 256) ∷ gamma_words table rest
gamma_words table (lo ∷ []) = lo ∷ []
gamma_words table [] = []

unfoldable pub apply_gamma : List ℕ → Bytes → Bytes
unfolding gamma_bytes gamma_words
apply_gamma table line =
    if length table == 256
    then gamma_bytes table line
    else if length table == 65536
    then gamma_words table line
    else line

-- The samples that the loop writes. It goes on while there is a byte left, and reads what stands
-- behind the buffer if the last pixel is not whole.
unfoldable pub gray_bytes : Floats → Bytes → Bytes
gray_bytes f (r ∷ g ∷ b ∷ rest) = f.gray 8 r g b ∷ gray_bytes f rest
gray_bytes f (r ∷ g ∷ []) = f.gray 8 r g (f.behind 0) ∷ []
gray_bytes f (r ∷ []) = f.gray 8 r (f.behind 0) (f.behind 1) ∷ []
gray_bytes f [] = []

-- The two bytes of a sample.
abbrev pub gray_word : Floats → ℕ → ℕ → ℕ → ℕ → ℕ → ℕ → Bytes → Bytes
gray_word f r r' g g' b b' rest =
    let v = f.gray 16 (r + 256 * r') (g + 256 * g') (b + 256 * b') in
    (v % 256) ∷ ((v / 256) % 256) ∷ rest

unfoldable pub gray_words : Floats → Bytes → Bytes
gray_words f (r ∷ r' ∷ g ∷ g' ∷ b ∷ b' ∷ rest) = gray_word f r r' g g' b b' (gray_words f rest)
gray_words f (r ∷ r' ∷ g ∷ g' ∷ b ∷ []) = gray_word f r r' g g' b (f.behind 0) []
gray_words f (r ∷ r' ∷ g ∷ g' ∷ []) = gray_word f r r' g g' (f.behind 0) (f.behind 1) []
gray_words f (r ∷ r' ∷ g ∷ []) = gray_word f r r' g (f.behind 0) (f.behind 1) (f.behind 2) []
gray_words f (r ∷ r' ∷ []) = gray_word f r r' (f.behind 0) (f.behind 1) (f.behind 2) (f.behind 3) []
gray_words f (r ∷ []) =
    gray_word f r (f.behind 0) (f.behind 1) (f.behind 2) (f.behind 3) (f.behind 4) []
gray_words f [] = []

-- The samples are written over the front of the buffer. The second byte of a sample that is written
-- to a line of one byte does not belong to the line.
abbrev over : Bytes → Bytes → Bytes
over front line = take (length line) (front ++ drop (length front) line)

unfoldable pub synthesize_gray : Floats → ℕ → Bytes → Bytes
unfolding gray_bytes gray_words
synthesize_gray f bit_depth line =
    if bit_depth == 8
    then over (gray_bytes f line) line
    else if bit_depth == 16
    then over (gray_words f line) line
    else line
