-- ===== src/Http/Chunks.antt =====
-- The chunked stream of a response (web/httpserver.cpp). A size has 64 bits.
pub mod Reading
use air_sane.Prelude.{
  ℕ, zero, suc, ◌+◌, ◌/◌, ◌%◌, ◌==◌, if◌then◌else◌, List, [], ◌∷◌, ◌++◌, null, length,
}
use air_sane.Text.{Bytes, codes}
use air_sane.Uuid.{hex_digit}

-- The output of a size with std::hex, of at most `n` digits.
unfoldable pub hex : ℕ → ℕ → Bytes
hex zero size = []
hex (suc n) size =
    let rest = hex n (size / 16) in
    (if size / 16 == 0 then [] else rest) ++ hex_digit (size % 16) ∷ []

-- What the buffer holds, what has gone to the stream of the response, and `mTotalWritten`.
pub record Chunkstream : Type 0 where
  pub buffered : Bytes
  pub out : Bytes
  pub total : ℕ

unfoldable pub new_chunkstream : Bytes → Chunkstream
new_chunkstream head = record { buffered = []; out = head; total = 0 }

unfoldable pub write : Bytes → Chunkstream → Chunkstream
write s c = record c { buffered = c.buffered ++ s }

-- A size of at most sixteen digits.
unfoldable pub chunk : Bytes → Bytes
unfolding hex
chunk s = hex 16 (length s) ++ (codes "\r\n" ++ (s ++ codes "\r\n"))

unfoldable pub sync : Chunkstream → Chunkstream
unfolding chunk
sync c = if null c.buffered then c else record {
  buffered = [];
  out = c.out ++ chunk c.buffered;
  total = c.total + length c.buffered;
}

-- The destructor.
unfoldable pub close : Chunkstream → Chunkstream
unfolding sync
close c = let c' = sync c in record c' { out = c'.out ++ codes "0\r\n\r\n" }

-- `seekoff(0, cur, out)`, which `tellp` asks for.
unfoldable pub tell : Chunkstream → ℕ
tell c = c.total + length c.buffered

pub data Action : Type 0 where
  put : Bytes → Action
  flush : Action

abbrev pub act : Action → Chunkstream → Chunkstream
act (put s) = write s
act flush = sync

abbrev pub act_all : List Action → Chunkstream → Chunkstream
act_all [] c = c
act_all (a ∷ actions) c = act_all actions (act a c)

abbrev pub said : List Action → Bytes
said [] = []
said (put s ∷ actions) = s ++ said actions
said (flush ∷ actions) = said actions
