-- ===== src/Server/Startup/Unique.antt =====
-- Lists in which no name stands twice.
use mathlib.Core.Path.{subst}
use air_sane.Prelude.{
  ℕ, suc, ◌≡◌, refl, sym, ◌∙◌, ap, false, List, [], ◌∷◌, ◌++◌, map, length, arith,
}
use air_sane.Text.{Bytes, codes, equal, equal_iff, Lacks}
use air_sane.Uuid.{print}
use air_sane.Scanner.FreeNames.{is_taken}
use air_sane.Server.Startup.{Entry}

pub length-map : (f : Entry → Bytes) (es : List Entry) → length (map f es) ≡ length es
length-map f [] = refl
length-map f (e ∷ es) = ap suc (length-map f es)

-- No name stands twice.
abbrev pub IsUnique : List Bytes → Type 0
IsUnique [] = Unit
IsUnique (x ∷ xs) = (is_taken x xs ≡ false) × IsUnique xs

pub is_taken-append :
    (x y : Bytes) (xs : List Bytes)
    → is_taken x xs ≡ false
    → equal y x ≡ false
    → is_taken x (xs ++ y ∷ []) ≡ false
unfolding is_taken
is_taken-append x y [] h differs = ground (arith, differs)
is_taken-append x y (z ∷ xs) h differs = ground (arith, h, is_taken-append x y xs, differs)

pub IsUnique-append :
    (xs : List Bytes) (y : Bytes) → IsUnique xs → is_taken y xs ≡ false → IsUnique (xs ++ y ∷ [])
unfolding is_taken
IsUnique-append [] y u free = (refl, tt)
IsUnique-append (x ∷ xs) y (here, u) free = (
  is_taken-append x y xs here (ground (arith, free, equal_iff x y, equal_iff y x)),
  IsUnique-append xs y u (ground (arith, free)),
)

pub equal-append : (p s t : Bytes) → equal (p ++ s) (p ++ t) ≡ equal s t
unfolding equal
equal-append [] s t = refl
equal-append (x ∷ p) s t = ground (arith, equal-append p s t)

pub append-cancel : (p s t : Bytes) → p ++ s ≡ p ++ t → s ≡ t
append-cancel p s t h =
    (equal_iff s t).0 (sym (equal-append p s t) ∙ (equal_iff (p ++ s) (p ++ t)).1 h)

-- A byte that stands in a text is not lacked.
occurs : (c : ℕ) (s t : Bytes) → Lacks c (s ++ c ∷ t) → ⊥
occurs c [] t (other, rest) = ground (arith, other)
occurs c (x ∷ s) t (other, rest) = occurs c s t rest

occurs-behind : (c : ℕ) (p s : Bytes) → Lacks c (p ++ s) → Lacks c s
occurs-behind c [] s h = h
occurs-behind c (x ∷ p) s (other, rest) = occurs-behind c p s rest

-- A printed uuid has a dash, so no path that ends in one is that of the first scanner.
pub path-print : (prefix bytes : Bytes) → codes "/eSCL" ≡ prefix ++ print bytes → ⊥
unfolding print
path-print prefix bytes same =
    let bare : Lacks b'-' (codes "/eSCL") = (refl, (refl, (refl, (refl, (refl, tt))))) in
    occurs b'-' _ _ (occurs-behind b'-' prefix (print bytes) (subst (Lacks b'-') same bare))
