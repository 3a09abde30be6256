-- ===== src/Url/RoundTrip.antt =====
-- Reading back a printed url. Each lemma is about one stage of the constructor, at the place
-- `pos` from which the url reads `rest`.
use air_sane.Prelude.{
  ℕ, ◌+◌, ◌-◌, ◌≡◌, ◌≢◌, refl, ◌∙◌, false, [], ◌∷◌, ◌++◌, none, some, arith, ◌==◌, if◌then◌else◌,
  length, take, drop, null, append_assoc, append-nil, take-length-append, drop-length-append, ◌⊎◌,
  inl, inr,
}
use air_sane.Text.{
  drop-add, Bytes, codes, find, starts_with, Lacks, find_byte-Lacks, find_byte-append, Lacks-append,
}
use air_sane.Url.{
  Url, find_from, split_colon, scheme, userinfo, location, parse, colon_before, print,
}

-- The urls that the printed form stands for.
pub record IsPlain (u : Url) : Type 0 where
  pub protocol_given : u.protocol ≢ []
  pub protocol_colon : Lacks b':' u.protocol
  pub user_colon : Lacks b':' u.user
  pub user_at : Lacks b'@' u.user
  pub password_at : Lacks b'@' u.password
  pub password_needs_user : u.user ≡ [] → u.password ≡ []
  pub host_colon : Lacks b':' u.host
  pub host_slash : Lacks b'/' u.host
  pub host_at : Lacks b'@' u.host
  pub port_slash : Lacks b'/' u.port
  pub port_at : Lacks b'@' u.port
  pub path_at : Lacks b'@' u.path
  pub path_slash : (u.path ≡ []) ⊎ ((p : Bytes) × (u.path ≡ b'/' ∷ p))

-- Behind `a` and one more byte.
drop_past : (a r : Bytes) (c : ℕ) → drop (length a + 1) (a ++ c ∷ r) ≡ r
drop_past a r c = drop-add (length a) 1 (a ++ c ∷ r) ∙ rw (drop-length-append a (c ∷ r))

split_colon-pair : (a b : Bytes) → Lacks b':' a → split_colon (a ++ colon_before b) ≡ (a, b)
unfolding split_colon colon_before
split_colon-pair a [] h =
    rw (append-nil, find_byte-Lacks b':' a h, split_colon) (ground (arith, append-nil a))
split_colon-pair a (x ∷ b) h =
    rw (find_byte-append b':' a (x ∷ b) h, split_colon)
      (ground (arith, take-length-append a (b':' ∷ x ∷ b), drop_past a (x ∷ b) b':'))

find-scheme :
    (p r : Bytes) → Lacks b':' p → find (codes "://") (p ++ (codes "://" ++ r)) ≡ some (length p)
unfolding find starts_with
find-scheme [] r h = refl
find-scheme (x ∷ p) r h = ground (arith, find-scheme p r h.1)

scheme-append : (p r : Bytes) → Lacks b':' p → scheme (p ++ (codes "://" ++ r)) ≡ (p, length p + 3)
unfolding scheme
scheme-append p r h =
    rw (find-scheme p r h, scheme) (ground (arith, take-length-append p (codes "://" ++ r)))

module _ (url : Bytes) (pos : ℕ) where
  find_from-hit :
      (c : ℕ) (s r : Bytes)
      → drop pos url ≡ s ++ c ∷ r
      → Lacks c s
      → find_from c pos url ≡ some (pos + length s)
  unfolding find_from
  find_from-hit c s r e h = rw (e, find_from) (rw (find_byte-append c s r h))

  find_from-miss : (c : ℕ) (s : Bytes) → drop pos url ≡ s → Lacks c s → find_from c pos url ≡ none
  unfolding find_from
  find_from-miss c s e h = rw (e, find_from) (rw (find_byte-Lacks c s h))

  -- The piece up to `pos + length s`, and what follows it.
  take_piece :
      (s r : Bytes) → drop pos url ≡ s ++ r → take (pos + length s - pos) (drop pos url) ≡ s
  take_piece s r e =
      let n : pos + length s - pos ≡ length s = omega arith in rw (n, e) (take-length-append s r)

  drop_piece : (s r : Bytes) → drop pos url ≡ s ++ r → drop (pos + length s) url ≡ r
  drop_piece s r e = drop-add pos (length s) url ∙ rw e (drop-length-append s r)

  userinfo-given :
      (user password r : Bytes)
      → drop pos url ≡ (user ++ colon_before password) ++ b'@' ∷ r
      → Lacks b':' user
      → Lacks b'@' (user ++ colon_before password)
      → userinfo url pos ≡ ((user, password), pos + length (user ++ colon_before password) + 1)
  unfolding userinfo
  userinfo-given user password r e h k =
      rw (find_from-hit b'@' (user ++ colon_before password) r e k, userinfo)
        (rw (
          take_piece (user ++ colon_before password) (b'@' ∷ r) e,
          split_colon-pair user password h,
        ))

  location-given :
      (host port path : Bytes)
      → drop pos url ≡ (host ++ colon_before port) ++ path
      → Lacks b':' host
      → Lacks b'/' (host ++ colon_before port)
      → (path ≡ []) ⊎ ((p : Bytes) × (path ≡ b'/' ∷ p))
      → location url pos ≡ ((host, port), path)
  unfolding location
  location-given host port path e h k (inl nothing) =
      let whole : drop pos url ≡ host ++ colon_before port =
        e ∙ rw nothing (append-nil (host ++ colon_before port)) in
      rw (find_from-miss b'/' (host ++ colon_before port) whole k, location)
        (rw (whole, split_colon-pair host port h, nothing))
  location-given host port path e h k (inr (p, slash)) =
      let split : drop pos url ≡ (host ++ colon_before port) ++ b'/' ∷ p = e ∙ rw slash in
      rw (find_from-hit b'/' (host ++ colon_before port) p split k, location)
        (rw (
          take_piece (host ++ colon_before port) (b'/' ∷ p) split,
          drop_piece (host ++ colon_before port) (b'/' ∷ p) split,
          split_colon-pair host port h,
          slash,
        ))

  -- The printed user part, which may be empty, and the place behind it.
  userinfo-printed :
      (user password tail : Bytes)
      → drop pos url
        ≡ (if null user then [] else user ++ (colon_before password ++ b'@' ∷ [])) ++ tail
      → Lacks b':' user
      → Lacks b'@' (user ++ colon_before password)
      → (user ≡ [] → password ≡ [])
      → Lacks b'@' tail
      → (pos2 : ℕ) × (userinfo url pos ≡ ((user, password), pos2)) × (drop pos2 url ≡ tail)
  unfolding userinfo
  userinfo-printed [] password tail e h k needs none_left =
      (pos, rw (find_from-miss b'@' tail e none_left, userinfo) (rw (needs refl)), e)
  userinfo-printed (x ∷ user) password tail e h k needs none_left = (
    pos + length (x ∷ user ++ colon_before password) + 1,
    userinfo-given (x ∷ user) password tail split h k,
    drop-add (pos + length (x ∷ user ++ colon_before password)) 1 url
        ∙ rw (drop_piece (x ∷ user ++ colon_before password) (b'@' ∷ tail) split),
  )
    where
      split : drop pos url ≡ (x ∷ user ++ colon_before password) ++ b'@' ∷ tail
      split = e ∙ simp append_assoc

parse_stages :
    (url : Bytes) (u : Url) (pos pos2 : ℕ)
    → scheme url ≡ (u.protocol, pos)
    → userinfo url pos ≡ ((u.user, u.password), pos2)
    → location url pos2 ≡ ((u.host, u.port), u.path)
    → parse url ≡ u
unfolding parse
parse_stages url u pos pos2 s w l = rw (s, parse) (rw (w, l))

colon_before-Lacks :
    (c : ℕ) (s : Bytes) → (b':' == c) ≡ false → Lacks c s → Lacks c (colon_before s)
unfolding colon_before
colon_before-Lacks c [] n h = tt
colon_before-Lacks c (x ∷ s) n h = (n, h)

-- What follows the protocol, and what follows the user.
abbrev after_user : Url → Bytes
after_user u = (u.host ++ colon_before u.port) ++ u.path

abbrev after_scheme : Url → Bytes
after_scheme u =
    (if null u.user then [] else u.user ++ (colon_before u.password ++ b'@' ∷ [])) ++ after_user u

print-scheme :
    (u : Url) (p : Bytes) → u.protocol ≡ p → p ≢ [] → print u ≡ p ++ (codes "://" ++ after_scheme u)
unfolding print
print-scheme u [] e n = absurd (n refl)
print-scheme u (x ∷ p) e n = rw (e, print) (simp append_assoc)

-- A url with a protocol, whose parts hold none of the separators that end them and whose path is
-- empty or begins with a slash, is read back from its printed form, part by part.
pub parse-print : (u : Url) → IsPlain u → parse (print u) ≡ u
parse-print u v = rw (print-scheme u u.protocol refl v.protocol_given) (
    parse_stages url u _ who.0 (scheme-append u.protocol (after_scheme u) v.protocol_colon) who.1 (
      location-given url who.0 u.host u.port u.path who.2 v.host_colon
        (Lacks-append b'/' u.host _ v.host_slash (colon_before-Lacks b'/' u.port refl v.port_slash))
        v.path_slash))
  where
    url : Bytes
    url = u.protocol ++ (codes "://" ++ after_scheme u)

    rest : drop (length u.protocol + 3) url ≡ after_scheme u
    rest =
        drop-add (length u.protocol) 3 url
        ∙ rw (drop-length-append u.protocol (codes "://" ++ after_scheme u))

    who :
        (pos2 : ℕ) × (userinfo url (length u.protocol + 3) ≡ ((u.user, u.password), pos2))
        × (drop pos2 url ≡ after_user u)
    who =
        userinfo-printed url (length u.protocol + 3) u.user u.password (after_user u) rest
          v.user_colon
          (Lacks-append b'@' u.user _ v.user_at
            (colon_before-Lacks b'@' u.password refl v.password_at))
          v.password_needs_user
          (Lacks-append b'@' (u.host ++ colon_before u.port) u.path
            (Lacks-append b'@' u.host _ v.host_at (colon_before-Lacks b'@' u.port refl v.port_at))
            v.path_at)
