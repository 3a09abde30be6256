-- ===== src/AccessFile/Reading.antt =====
-- The entries and errors of an access file (web/accessfile.cpp).
use air_sane.Prelude.{
  ◌≡◌, refl, sym, ◌∙◌, List, [], ◌∷◌, ◌++◌, append_assoc, append-nil, none, some, inl, inr,
  Option-cases,
}
use air_sane.Text.{Bytes, codes}
use air_sane.AccessFile.{Entry}
use air_sane.AccessFile.Parsing.{Net, AccessRules, meaning, parse_entry, add_line, read_rules}

-- The texts of the lines that hold an entry.
abbrev pub texts : List Bytes → List Bytes
texts [] = []
texts (line ∷ lines) = elim (meaning line) [ none ↦ texts lines | some text ↦ text ∷ texts lines ]

-- The entries that can be read, in their order.
abbrev pub parsed : Net → List Bytes → List Entry
parsed net [] = []
parsed net (t ∷ ts) = elim (parse_entry net t) [ none ↦ parsed net ts | some e ↦ e ∷ parsed net ts ]

-- The message for each text that is no entry.
abbrev pub messages : Net → List Bytes → Bytes
messages net [] = []
messages net (t ∷ ts) = elim (parse_entry net t) [
  | none ↦ codes "illegal entry in access file: " ++ (t ++ (b'\n' ∷ messages net ts))
  | some e ↦ messages net ts
]

add_line-parsed :
    (net : Net) (t : Bytes) (ts : List Bytes) (f : AccessRules)
    → ((add_line net t f).entries ++ parsed net ts ≡ f.entries ++ parsed net (t ∷ ts))
      × ((add_line net t f).errors ++ messages net ts ≡ f.errors ++ messages net (t ∷ ts))
unfolding add_line
add_line-parsed net t ts f = elim (Option-cases (parse_entry net t)) [
  | inl bad ↦ rw (bad, add_line, parsed, messages) (refl, simp append_assoc)
  | inr (e, fine) ↦ rw (fine, add_line, parsed, messages) (simp append_assoc, refl)
]

-- The constructor adds the entries of the lines that can be read, in their order, and one message
-- for each other line, where blank lines and comments are passed over.
pub read_rules-parsed :
    (net : Net) (lines : List Bytes) (f : AccessRules)
    → ((read_rules net lines f).entries ≡ f.entries ++ parsed net (texts lines))
      × ((read_rules net lines f).errors ≡ f.errors ++ messages net (texts lines))
unfolding read_rules
read_rules-parsed net [] f = (sym (append-nil f.entries), sym (append-nil f.errors))
read_rules-parsed net (line ∷ lines) f = elim (Option-cases (meaning line)) [
  | inl blank ↦ rw (blank, read_rules, texts) (read_rules-parsed net lines f)
  | inr (t, text) ↦
      let (entries, errors) = read_rules-parsed net lines (add_line net t f) in
      let (more, told) = add_line-parsed net t (texts lines) f in
      rw (text, read_rules, texts) (entries ∙ more, errors ∙ told)
]
