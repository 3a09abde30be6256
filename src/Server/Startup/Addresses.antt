-- ===== src/Server/Startup/Addresses.antt =====
-- No two scanners of the server have one stable name or one address.
use mathlib.Core.List.{map-append}
use air_sane.Prelude.{
  ℕ, ◌+◌, ◌≤◌, ◌<◌, ◌≡◌, refl, sym, ap, ◌∙◌, ◌⊎◌, inl, inr, ◌&&◌, true, false, List, [], ◌∷◌, ◌++◌,
  map, Option, none, some, All, length, length-append, ◌==◌, arith, Bool-cases, Option-cases,
}
use air_sane.Text.{Bytes, codes}
use air_sane.Sane.{ok}
use air_sane.Scanner.FreeNames.{is_taken, stable_name_at, stable_prefix, published_name_at}
use air_sane.Scanner.FreeNames.Choosing.{IsPrinter, choose_names-IsFirstFree}
use air_sane.Scanner.Init.{DeviceInfo, Identity, init_identity}
use air_sane.Server.CommandLine.{Config}
use air_sane.Server.Startup.Unique.{
  length-map, IsUnique-append, append-cancel, path-print, IsUnique,
}
use air_sane.Server.Startup.{
  Entry, Abilities, Platform, Found, uuid_of, match_ignorelist, stable_names, published_names,
  new_entry, build_mdns_service, publish, take_answer, take_device, register_device,
  register_devices, find_scanners, path_prefix,
}

-- Two scanners have one uri only if they have one uuid.
abbrev pub IsApart : Entry → Entry → Type 0
IsApart d e = d.uri ≡ e.uri → d.identity.uuid ≡ e.identity.uuid

abbrev pub AreApart : List Entry → Type 0
AreApart [] = Unit
AreApart (d ∷ ds) = All (IsApart d) ds × AreApart ds

All-append :
    (P : Entry → Type 0) (es : List Entry) (e : Entry) → All P es → P e → All P (es ++ e ∷ [])
All-append P [] e h here = (here, tt)
All-append P (d ∷ es) e (first, h) here = (first, All-append P es e h here)

AreApart-append :
    (es : List Entry) (e : Entry)
    → AreApart es
    → All (λ d. IsApart d e) es
    → AreApart (es ++ e ∷ [])
AreApart-append [] e h apart = (tt, tt)
AreApart-append (d ∷ es) e (first, h) (here, apart) =
    (All-append (IsApart d) es e first here, AreApart-append es e h apart)

-- The address of a scanner: that of the first one, or one that is made of the uuid of its name.
abbrev pub IsPlaced : Platform → Bytes → Entry → Type 0
IsPlaced platform prefix e =
    (e.identity.uuid ≡ uuid_of platform e.identity.stable_unique_name)
    × ((e.uri ≡ codes "/eSCL") ⊎ (e.uri ≡ prefix ++ e.identity.uuid))

module _ (platform : Platform) (printer : IsPrinter platform.show) (config : Config)
    (prefix : Bytes) (ignored : List Bytes) where
  open platform use {World, regex_match, show, initialise, announce}

  pub record IsAddressed (found : Found platform) : Type 0 where
    pub named : IsUnique (stable_names platform found.entries)
    pub addressed : AreApart found.entries
    pub placed : All (IsPlaced platform prefix) found.entries
    pub first : (found.scanner_count == 0) ≡ true → found.entries ≡ []
    pub announced : config.announce ≡ false → found.entries ≡ []

  -- An address that is made of a uuid is that of a scanner with this uuid at most.
  own-AreApart :
      (e : Entry) (entries : List Entry)
      → e.identity.uuid ≡ uuid_of platform e.identity.stable_unique_name
      → e.uri ≡ prefix ++ e.identity.uuid
      → All (IsPlaced platform prefix) entries
      → All (λ d. IsApart d e) entries
  unfolding uuid_of
  own-AreApart e [] mine own placed = tt
  own-AreApart e (d ∷ entries) mine own ((its, here), rest) =
      let later = own-AreApart e entries mine own rest in
      elim here [
        | inl first ↦ (
          λ same.
              absurd (path-print prefix _ (sym first ∙ same ∙ own ∙ ap (λ u. prefix ++ u) mine)),
          later,
        )
        | inr other ↦ (
          λ same. append-cancel prefix d.identity.uuid e.identity.uuid (sym other ∙ same ∙ own),
          later,
        )
      ]

  init_identity-Fresh :
      (fuel : ℕ) (others : List Bytes) (info : DeviceInfo)
      → length others < fuel
      → (i : Identity) × (init_identity show (uuid_of platform) fuel others info ≡ ok i)
        × (is_taken i.stable_unique_name others ≡ false)
        × (i.uuid ≡ uuid_of platform i.stable_unique_name)
  unfolding init_identity
  init_identity-Fresh fuel others info le =
      let make_and_model = info.vendor ++ codes " " ++ info.model in
      let (k, e, below, (least, free, before)) =
        (choose_names-IsFirstFree show printer fuel info.name make_and_model [] others le).0 in
      let stable = stable_name_at show (stable_prefix info.name make_and_model) k in
      (
        record {
          make_and_model = make_and_model;
          published_name = make_and_model;
          stable_unique_name = stable;
          uuid = uuid_of platform stable;
        },
        rw e refl,
        free,
        refl,
      )

  -- What publishing makes of the scanners: nothing new, or one more.
  publish-cases :
      (e : Entry) (can : Abilities) (entries : List Entry) (w : World)
      → ((publish platform config e can entries w).0 ≡ entries)
        ⊎ ((name : Bytes) × (config.announce ≡ true)
            × ((publish platform config e can entries w).0
                ≡ entries ++ record e { published_name = name } ∷ []))
  unfolding publish
  publish-cases e can entries w = elim (Bool-cases config.announce) [
    | inr silent ↦ inl (rw silent refl)
    | inl loud ↦
        let (type, records) = build_mdns_service config e can in
        elim (Option-cases (announce e.published_name type records w).0) [
          | inl unknown ↦ inl (rw (loud, unknown) refl)
          | inr (name, known) ↦ inr (name, loud, rw (loud, known) refl)
        ]
  ]

  -- A scanner with a new name gets a new address.
  new_entry-IsPlaced :
      (found : Found platform) (i : Identity) (name : Bytes) (can : Abilities)
      → IsAddressed found
      → i.uuid ≡ uuid_of platform i.stable_unique_name
      → let e = new_entry platform config prefix found.scanner_count i name can in
        IsPlaced platform prefix e × All (λ d. IsApart d e) found.entries
  unfolding new_entry
  new_entry-IsPlaced found i name can h own =
      elim (Bool-cases (found.scanner_count == 0 && config.compatible_path)) [
        | inl first ↦
            let none_yet : found.entries ≡ [] = h.first (ground (arith, first)) in
            rw first ((own, inl refl), rw none_yet tt)
        | inr later ↦
            let e = new_entry platform config prefix found.scanner_count i name can in
            rw later (
              (own, inr refl),
              own-AreApart (record e { uri = prefix ++ i.uuid }) found.entries own refl h.placed,
            )
      ]

  add-IsAddressed :
      (found : Found platform) (e : Entry)
      → IsAddressed found
      → config.announce ≡ true
      → IsPlaced platform prefix e
      → is_taken e.identity.stable_unique_name (stable_names platform found.entries) ≡ false
      → All (λ d. IsApart d e) found.entries
      → IsAddressed
          (record { scanner_count = found.scanner_count + 1; entries = found.entries ++ e ∷ [] })
  add-IsAddressed found e h loud here free apart = record {
    named = rw (map-append (λ (d : Entry). d.identity.stable_unique_name) found.entries (e ∷ [])) (
        IsUnique-append (stable_names platform found.entries) e.identity.stable_unique_name h.named
          free);
    addressed = AreApart-append found.entries e h.addressed apart;
    placed = All-append (IsPlaced platform prefix) found.entries e h.placed here;
    first = λ none_yet. ground (arith, none_yet);
    announced = λ silent. ground (arith, loud, silent);
  }

  count-IsAddressed :
      (found : Found platform)
      → IsAddressed found
      → IsAddressed (record { scanner_count = found.scanner_count + 1; entries = found.entries })
  count-IsAddressed found h = record {
    named = h.named;
    addressed = h.addressed;
    placed = h.placed;
    first = λ none_yet. ground (arith, none_yet);
    announced = h.announced;
  }

  -- At most one more scanner than before.
  abbrev pub Grows : Found platform → Found platform → Type 0
  Grows found found' = length found'.entries ≤ length found.entries + 1

  take_answer-IsAddressed :
      (i : Identity) (name : Bytes) (found : Found platform) (answer : Option Abilities) (w : World)
      → IsAddressed found
      → is_taken i.stable_unique_name (stable_names platform found.entries) ≡ false
      → i.uuid ≡ uuid_of platform i.stable_unique_name
      → IsAddressed (take_answer platform config prefix i name found answer w).0
        × Grows found (take_answer platform config prefix i name found answer w).0
  unfolding take_answer new_entry
  take_answer-IsAddressed i name found none w h free own = (h, omega arith)
  take_answer-IsAddressed i name found (some can) w h free own =
      let e = new_entry platform config prefix found.scanner_count i name can in
      let (here, apart) = new_entry-IsPlaced found i name can h own in
      elim (publish-cases e can found.entries w) [
        | inl same ↦ rw same (count-IsAddressed found h, omega arith)
        | inr (known, loud, more) ↦
            let kept = record e { published_name = known } in
            rw more (
              add-IsAddressed found kept h loud here free apart,
              omega (arith, length-append found.entries (kept ∷ [])),
            )
      ]

  le_map :
      (f : Entry → Bytes) (es : List Entry) (fuel : ℕ) → length es < fuel → length (map f es) < fuel
  le_map f es fuel le = omega (arith, length-map f es)

  register_device-IsAddressed :
      (fuel : ℕ) (info : DeviceInfo) (found : Found platform) (w : World)
      → IsAddressed found
      → length found.entries < fuel
      → (r : Found platform × World) × (register_device platform fuel config prefix ignored info
            (found, w)
          ≡ ok r)
        × IsAddressed r.0
        × Grows found r.0
  unfolding register_device take_device
  register_device-IsAddressed fuel info found w h le =
      elim (Bool-cases (match_ignorelist regex_match ignored info.name)) [
        | inl skip ↦ ((found, w), rw skip refl, h, omega arith)
        | inr go ↦
            let (i, e, free, own) =
              init_identity-Fresh fuel (stable_names platform found.entries) info
                (le_map (λ (d : Entry). d.identity.stable_unique_name) found.entries fuel le) in
            let (k, e', below, chosen) =
              (choose_names-IsFirstFree show printer fuel [] [] i.published_name
                (published_names platform found.entries)
                (le_map (λ (d : Entry). d.published_name) found.entries fuel le)).1 in
            let name = published_name_at show i.published_name k in
            let (answer, w') = initialise info w in
            let (good, grows) = take_answer-IsAddressed i name found answer w' h free own in
            (
              take_device platform config prefix info i name found w,
              rw go (rw e (rw e' refl)),
              good,
              grows,
            )
      ]

  register_devices-IsAddressed :
      (fuel : ℕ) (infos : List DeviceInfo) (found : Found platform) (w : World)
      → IsAddressed found
      → length found.entries + length infos < fuel
      → (r : Found platform × World) × (register_devices platform fuel config prefix ignored infos
            (found, w)
          ≡ ok r)
        × IsAddressed r.0
  unfolding register_devices
  register_devices-IsAddressed fuel [] found w h le = ((found, w), refl, h)
  register_devices-IsAddressed fuel (info ∷ infos) found w h le =
      let ((found', w'), e, h', grows) =
        register_device-IsAddressed fuel info found w h (omega arith) in
      let (r, e', last) =
        register_devices-IsAddressed fuel infos found' w' h' (omega (arith, grows)) in
      (r, rw e e', last)

-- For fuel that is greater than the number of devices, and numbers that are printed differently
-- if they differ, the search for scanners returns. No two of the scanners that it keeps have one
-- stable name; each has the uuid that is made of its stable name, and the uri "/eSCL" or one that
-- ends in that uuid; and two of them have one uri only if they have one uuid. Where scanners are
-- not to be announced over mDNS, none is kept.
pub find_scanners-IsAddressed :
    (platform : Platform) (config : Config) (random : Bytes) (ignored : List Bytes)
    (infos : List DeviceInfo) (w : platform.World) (fuel : ℕ)
    → IsPrinter platform.show
    → length infos < fuel
    → (r : Found platform × platform.World) × (find_scanners platform fuel config random ignored
          infos w
        ≡ ok r)
      × IsUnique (stable_names platform r.0.entries)
      × AreApart r.0.entries
      × All (IsPlaced platform (path_prefix config random)) r.0.entries
      × (config.announce ≡ false → r.0.entries ≡ [])
unfolding find_scanners
find_scanners-IsAddressed platform config random ignored infos w fuel printer le =
    let prefix = path_prefix config random in
    let none_yet : Found platform = record { scanner_count = 0; entries = [] } in
    let (r, e, h) =
      register_devices-IsAddressed platform printer config prefix ignored fuel infos none_yet w
        (record {
          named = tt;
          addressed = tt;
          placed = tt;
          first = λ zero_found. refl;
          announced = λ silent. refl;
        })
        (omega arith) in
    (r, e, h.named, h.addressed, h.placed, h.announced)
