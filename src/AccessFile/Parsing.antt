-- ===== src/AccessFile/Parsing.antt =====
-- The constructor and `Entry::parse` (web/accessfile.cpp). `inet_pton`, `atoi` and the list of
-- interfaces are the parameter `Net`.
use air_sane.Prelude.{
  zero, suc, ◌*◌, ◌&&◌, ◌||◌, Bool, false, List, [], ◌∷◌, ◌++◌, Option, none, some, null, ◌==◌,
  if◌then◌else◌, drop, length,
}
use air_sane.Prelude.Int.{ℤ, pos, negsuc}
use air_sane.Text.{Bytes, codes, equal, starts_with}
use air_sane.Http.{ctolower, is_space}
use air_sane.AccessFile.{
  Family, inet, inet6, width, Sockaddr, set_mask_bits, Network, Verdict, allow, deny, Entry,
}

-- What the code takes from the C library.
pub record Net : Type 0 where
  pub inet_pton : Bytes → Option Bytes
  pub inet_pton6 : Bytes → Option Bytes
  pub atoi : Bytes → ℤ
  -- none if `getifaddrs` fails; each interface with its name
  pub interfaces : Option (List (Bytes × Network))

-- The part before the last slash and the part behind it.
unfoldable pub split_slash : Bytes → Option (Bytes × Bytes)
split_slash [] = none
split_slash (c ∷ s) = elim (split_slash s) [
  | some (before, behind) ↦ some (c ∷ before, behind)
  | none ↦ if c == b'/' then some ([], s) else none
]

-- The interfaces with a name, or all of them.
unfoldable pub select : Bytes → List (Bytes × Network) → List Network
select name [] = []
select name ((n, net) ∷ nets) =
    if equal name (codes "*") || equal name n then net ∷ select name nets else select name nets

-- A network of a family, with the whole width as the default of its bits.
unfoldable pub masked : Family → Bytes → Option ℤ → Network
masked f bytes bits =
    let address : Sockaddr = record { family = f; data_bytes = bytes } in
    let given : ℤ = elim bits [
      | none ↦ pos (8 * width f)
      | some (pos n) ↦ pos n
      | some (negsuc zero) ↦ pos (8 * width f)
      | some (negsuc (suc n)) ↦ negsuc (suc n)
    ] in
    record { address = address; mask = (set_mask_bits address given).1 }

unfoldable pub parse_networks : Net → Bytes → Option (List Network)
unfolding split_slash masked
parse_networks net rule =
    let (text, bits) : Bytes × Option ℤ = elim (split_slash rule) [
      | none ↦ (rule, none)
      | some (before, behind) ↦ (before, some (net.atoi behind))
    ] in
    elim (net.inet_pton text) [
      | some bytes ↦ some (masked inet bytes bits ∷ [])
      | none ↦ elim (net.inet_pton6 text) [
        | some bytes ↦ some (masked inet6 bytes bits ∷ [])
        | none ↦ none
      ]
    ]

-- The networks of the interfaces with a name. An empty list is an error.
unfoldable pub interface_networks : Net → Bytes → Option (List Network)
unfolding select
interface_networks net name = elim net.interfaces [
  | none ↦ none
  | some nets ↦ if null (select name nets) then none else some (select name nets)
]

-- The rule of an entry.
unfoldable pub parse_rule : Net → Bytes → Option (List Network)
parse_rule net rule =
    let keywords = codes "local on " in
    if starts_with rule keywords
    then (let name = drop (length keywords) rule in
        if null name then none else interface_networks net name)
    else parse_networks net rule

-- `is >> kind`, and what follows it.
unfoldable pub first_word : Bytes → Bytes × Bytes
first_word [] = ([], [])
first_word (c ∷ s) =
    if is_space c then ([], c ∷ s) else (let (word, rest) = first_word s in (c ∷ word, rest))

-- `>> std::ws`.
unfoldable pub skip_space : Bytes → Bytes
skip_space [] = []
skip_space (c ∷ s) = if is_space c then skip_space s else c ∷ s

-- The word before the rule, whose case does not matter.
unfoldable pub kind_of : Bytes → Option Verdict
kind_of word =
    if equal (ctolower word) (codes "allow")
    then some allow
    else if equal (ctolower word) (codes "deny")
    then some deny
    else none

-- `Entry::parse` of a line that begins with no white space.
unfoldable pub parse_entry : Net → Bytes → Option Entry
unfolding kind_of first_word skip_space parse_rule
parse_entry net text =
    let (word, rest) = first_word text in
    let rule = skip_space rest in
    elim (kind_of word) [
      | none ↦ none
      | some k ↦ elim (if null rule then none else parse_rule net rule) [
        | none ↦ none
        | some networks ↦ some (record { kind = k; rule = rule; networks = networks })
      ]
    ]

-- The trailing white space goes.
unfoldable pub trim_end : Bytes → Bytes
trim_end [] = []
trim_end (c ∷ s) = let rest = trim_end s in if is_space c && null rest then [] else c ∷ rest

abbrev pub is_comment : Bytes → Bool
is_comment [] = false
is_comment (c ∷ s) = c == b'#'

-- The text of a line that holds an entry.
unfoldable pub meaning : Bytes → Option Bytes
unfolding trim_end skip_space
meaning line =
    let text = trim_end (skip_space line) in
    if null text || is_comment text then none else some text

pub record AccessRules : Type 0 where
  pub entries : List Entry
  pub errors : Bytes

unfoldable pub add_line : Net → Bytes → AccessRules → AccessRules
add_line net text f = elim (parse_entry net text) [
  | none ↦ record f {
    errors = f.errors ++ (codes "illegal entry in access file: " ++ (text ++ b'\n' ∷ []));
  }
  | some e ↦ record f { entries = f.entries ++ e ∷ [] }
]

-- The loop of the constructor.
unfoldable pub read_rules : Net → List Bytes → AccessRules → AccessRules
read_rules net [] f = f
read_rules net (line ∷ lines) f = elim (meaning line) [
  | none ↦ read_rules net lines f
  | some text ↦ read_rules net lines (add_line net text f)
]
