-- ===== src/Url.antt =====
-- basic/url.cpp: the constructor that takes a url apart, and `print`.
pub mod RoundTrip
use air_sane.Prelude.{
  ℕ, ◌+◌, ◌-◌, List, [], ◌∷◌, ◌++◌, Option, none, some, if◌then◌else◌, take, drop, null,
}
use air_sane.Text.{Bytes, codes, find, find_byte, substr}

pub record Url : Type 0 where
  pub protocol : Bytes
  pub user : Bytes
  pub password : Bytes
  pub host : Bytes
  pub port : Bytes
  pub path : Bytes

-- `url.find(c, pos)`.
pub find_from : ℕ → ℕ → Bytes → Option ℕ
unfolding find_byte
find_from c pos url = elim (find_byte c (drop pos url)) [ none ↦ none | some n ↦ some (pos + n) ]

-- The part before the first colon and the part behind it.
pub split_colon : Bytes → Bytes × Bytes
unfolding find_byte
split_colon s = elim (find_byte b':' s) [
  | none ↦ (s, [])
  | some pos ↦ (take pos s, drop (pos + 1) s)
]

-- The protocol, and where the rest begins.
pub scheme : Bytes → Bytes × ℕ
unfolding find
scheme url = elim (find (codes "://") url) [ none ↦ ([], 0) | some pos ↦ (take pos url, pos + 3) ]

-- User and password, and where the rest begins.
pub userinfo : Bytes → ℕ → (Bytes × Bytes) × ℕ
unfolding find_from split_colon
userinfo url pos = elim (find_from b'@' pos url) [
  | none ↦ (([], []), pos)
  | some pos2 ↦ (split_colon (substr pos (pos2 - pos) url), pos2 + 1)
]

-- Host and port, and the path.
pub location : Bytes → ℕ → (Bytes × Bytes) × Bytes
unfolding find_from split_colon
location url pos = elim (find_from b'/' pos url) [
  | none ↦ (split_colon (drop pos url), [])
  | some pos2 ↦ (split_colon (substr pos (pos2 - pos) url), drop pos2 url)
]

unfoldable pub parse : Bytes → Url
unfolding scheme userinfo location
parse url =
    let (protocol, pos) = scheme url in
    let (who, pos2) = userinfo url pos in
    let (place, path) = location url pos2 in
    record {
      protocol = protocol;
      user = who.0;
      password = who.1;
      host = place.0;
      port = place.1;
      path = path;
    }

-- `":" << s`, unless `s` is empty.
pub colon_before : Bytes → Bytes
colon_before s = if null s then [] else b':' ∷ s

unfoldable pub print : Url → Bytes
unfolding colon_before
print u =
    (if null u.protocol then [] else u.protocol ++ codes "://")
    ++ ((if null u.user then [] else u.user ++ (colon_before u.password ++ b'@' ∷ []))
        ++ (u.host ++ (colon_before u.port ++ u.path)))
