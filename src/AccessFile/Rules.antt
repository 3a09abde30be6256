-- ===== src/AccessFile/Rules.antt =====
-- Which rule decides over an address (web/accessfile.cpp).
use air_sane.Prelude.{◌≡◌, Bool, true, false, List, ◌∷◌, ◌++◌, All, ◌⊎◌}
use air_sane.AccessFile.{Sockaddr, Entry, Verdict, allow, deny, no_match, match_entry}

-- The entries before the first one that matches, that one and the others.
pub record Decision (es : List Entry) (a : Sockaddr) (v : Verdict) : Type 0 where
  pub before : List Entry
  pub entry : Entry
  pub after : List Entry
  pub split : es ≡ before ++ entry ∷ after
  pub passed : All (λ e. match_entry e a ≡ no_match) before
  pub decides : match_entry entry a ≡ v

-- What an answer stands for.
abbrev pub Judged : List Entry → Sockaddr → Bool → Type 0
Judged es a true = Decision es a allow
Judged es a false = Decision es a deny ⊎ All (λ e. match_entry e a ≡ no_match) es
