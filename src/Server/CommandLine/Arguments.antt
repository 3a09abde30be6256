-- ===== src/Server/CommandLine/Arguments.antt =====
-- The values of the options are those of the last arguments that set them.
use mathlib.Core.List.{append_cancel_left}
use air_sane.Prelude.{
  ℕ, ◌+◌, ◌≡◌, refl, sym, ap, ◌∙◌, Bool, true, false, List, [], ◌∷◌, ◌++◌, some, drop, length, All,
  if◌then◌else◌, arith, Bool-cases, inl, inr, length-append, append_assoc,
}
use air_sane.Text.{
  Bytes, codes, equal, equal_iff, starts_with, find_byte, Lacks, find_byte-append,
  starts_with_split,
}
use air_sane.Server.CommandLine.{
  Table, Match, assigned, missing_value, unknown_option, beside, assignment, value_of, match_option,
  read_arguments, lookup,
}

-- No name of an option has an "=".
abbrev pub IsNamed : Table → Type 0
IsNamed = All (λ option. Lacks b'=' option.0)

-- The value of an option behind the arguments, if it has a value before them.
abbrev pub chosen : Bytes → Bytes → List Bytes → Bytes
chosen name value [] = value
chosen name value (arg ∷ args) =
    chosen name
      (if starts_with arg (assignment name) then drop (length (assignment name)) arg else value)
      args

Lacks-dashes : (name : Bytes) → Lacks b'=' name → Lacks b'=' (codes "--" ++ name)
Lacks-dashes name h = (refl, (refl, h))

-- Two texts of one length that begin two equal texts are equal.
heads : (s t u v : Bytes) → length s ≡ length t → s ++ u ≡ t ++ v → s ≡ t
heads [] [] u v e h = refl
heads [] (y ∷ t) u v e h = absurd (omega arith)
heads (x ∷ s) [] u v e h = absurd (omega arith)
heads (x ∷ s) (y ∷ t) u v e h =
    let first : x ≡ y = ground (arith, h) in
    let others : s ++ u ≡ t ++ v = ground (arith, h) in
    rw (first, heads s t u v (omega arith) others) refl

Lacks-split : (s t rest : Bytes) → Lacks b'=' s → s ≡ t ++ b'=' ∷ rest → ⊥
Lacks-split [] [] rest h e = ground (arith, e)
Lacks-split [] (y ∷ t) rest h e = ground (arith, e)
Lacks-split (x ∷ s) [] rest h e = ground (arith, h, e)
Lacks-split (x ∷ s) (y ∷ t) rest h e = Lacks-split s t rest h.1 (ground (arith, e))

-- Where an argument begins with the assignment of a name, its first "=" stands behind the name.
assigned-split :
    (arg name : Bytes)
    → starts_with arg (assignment name) ≡ true
    → arg ≡ (codes "--" ++ name) ++ b'=' ∷ drop (length (assignment name)) arg
assigned-split arg name begins =
    starts_with_split arg (assignment name) begins
    ∙ append_assoc (codes "--" ++ name) (b'=' ∷ []) (drop (length (assignment name)) arg)

find_byte-assignment :
    (arg name : Bytes)
    → Lacks b'=' name
    → starts_with arg (assignment name) ≡ true
    → find_byte b'=' arg ≡ some (length (codes "--" ++ name))
find_byte-assignment arg name h begins =
    let rest = drop (length (assignment name)) arg in
    ap (find_byte b'=') (assigned-split arg name begins)
    ∙ find_byte-append b'=' (codes "--" ++ name) rest (Lacks-dashes name h)

value_of-found :
    (arg : Bytes) (n : ℕ) → find_byte b'=' arg ≡ some n → value_of arg ≡ drop (n + 1) arg
unfolding value_of
value_of-found arg n e = rw (e, value_of)

value_of-assignment :
    (arg name : Bytes)
    → Lacks b'=' name
    → starts_with arg (assignment name) ≡ true
    → value_of arg ≡ drop (length (assignment name)) arg
value_of-assignment arg name h begins =
    let behind : length (codes "--" ++ name) + 1 ≡ length (assignment name) =
      omega (arith, length-append name (b'=' ∷ [])) in
    value_of-found arg (length (codes "--" ++ name)) (find_byte-assignment arg name h begins)
    ∙ ap (λ (n : ℕ). drop n arg) behind

-- An argument sets one name only.
assigned-same :
    (arg name other : Bytes)
    → Lacks b'=' name
    → Lacks b'=' other
    → starts_with arg (assignment name) ≡ true
    → starts_with arg (assignment other) ≡ true
    → name ≡ other
assigned-same arg name other h h' begins begins' =
    let same : length name ≡ length other =
      ground (
        arith,
        find_byte-assignment arg name h begins,
        find_byte-assignment arg other h' begins',
      ) in
    let joined : (codes "--" ++ name) ++ b'=' ∷ drop (length (assignment name)) arg
        ≡ (codes "--" ++ other) ++ b'=' ∷ drop (length (assignment other)) arg =
      sym (assigned-split arg name begins) ∙ assigned-split arg other begins' in
    heads name other (b'=' ∷ drop (length (assignment name)) arg)
      (b'=' ∷ drop (length (assignment other)) arg) same
      (append_cancel_left (codes "--") (name ++ b'=' ∷ drop (length (assignment name)) arg)
        (other ++ b'=' ∷ drop (length (assignment other)) arg) joined)

-- An argument that is the dashes and a name sets nothing.
bare-sets-nothing :
    (name other : Bytes)
    → Lacks b'=' name
    → starts_with (codes "--" ++ name) (assignment other) ≡ false
bare-sets-nothing name other h =
    elim (Bool-cases (starts_with (codes "--" ++ name) (assignment other))) [
      | inr no_other ↦ no_other
      | inl begins ↦ absurd (
          Lacks-split (codes "--" ++ name) (codes "--" ++ other)
            (drop (length (assignment other)) (codes "--" ++ name)) (Lacks-dashes name h)
            (assigned-split (codes "--" ++ name) other begins))
    ]

-- What an argument does to the value of a name.
abbrev pub set_by : Bytes → Bytes → Bytes → Bytes
set_by arg name value =
    if starts_with arg (assignment name) then drop (length (assignment name)) arg else value

abbrev pub Matched : Bytes → Table → Match → Type 0
Matched arg table (assigned table') =
    (name value : Bytes)
    → Lacks b'=' name
    → lookup name table ≡ some value
    → lookup name table' ≡ some (set_by arg name value)
Matched arg table _ =
    (name value : Bytes)
    → Lacks b'=' name
    → lookup name table ≡ some value
    → starts_with arg (assignment name) ≡ false

module _ (arg n v : Bytes) (table : Table) where
  -- A name that is the first in the table, or is not.
  beside-Matched :
      (m : Match)
      → starts_with arg (assignment n) ≡ false
      → Matched arg table m
      → Matched arg ((n, v) ∷ table) (beside (n, v) m)
  unfolding lookup
  beside-Matched (assigned table') differs rest = λ name value lacks found.
      elim (Bool-cases (equal n name)) [
        | inl same ↦
            let e = (equal_iff n name).0 same in
            let begins_not : starts_with arg (assignment name) ≡ false = rw (← e) differs in
            rw (same, begins_not) (rw same at found)
        | inr other ↦ rw other (rest name value lacks (rw other at found))
      ]
  beside-Matched missing_value differs rest = λ name value lacks found.
      elim (Bool-cases (equal n name)) [
        | inl same ↦ rw (← (equal_iff n name).0 same) differs
        | inr other ↦ rest name value lacks (rw other at found)
      ]
  beside-Matched unknown_option differs rest = λ name value lacks found.
      elim (Bool-cases (equal n name)) [
        | inl same ↦ rw (← (equal_iff n name).0 same) differs
        | inr other ↦ rest name value lacks (rw other at found)
      ]

  assigned-Matched :
      Lacks b'=' n
      → starts_with arg (assignment n) ≡ true
      → Matched arg ((n, v) ∷ table) (assigned ((n, value_of arg) ∷ table))
  unfolding lookup
  assigned-Matched here begins name value lacks found = elim (Bool-cases (equal n name)) [
    | inl same ↦
        let e = (equal_iff n name).0 same in
        let begins' : starts_with arg (assignment name) ≡ true = rw (← e) begins in
        rw (same, begins') (ap some (value_of-assignment arg name lacks begins'))
    | inr other ↦
        let begins_not : starts_with arg (assignment name) ≡ false =
          elim (Bool-cases (starts_with arg (assignment name))) [
            | inr no_other ↦ no_other
            | inl too ↦ absurd (
                ground (
                  arith,
                  other,
                  (equal_iff n name).1 (assigned-same arg n name here lacks begins too),
                ))
          ] in
        rw (other, begins_not) (rw other at found)
  ]

match_option-Matched :
    (arg : Bytes) (table : Table) → IsNamed table → Matched arg table (match_option arg table)
unfolding match_option lookup
match_option-Matched arg [] h = λ name value lacks found. cc
match_option-Matched arg ((n, v) ∷ table) (here, rest) =
    elim (Bool-cases (starts_with arg (assignment n))) [
      | inl begins ↦ rw begins (assigned-Matched arg n v table here begins)
      | inr differs ↦ elim (Bool-cases (equal arg (codes "--" ++ n))) [
        | inl bare ↦
            rw (differs, bare)
              (λ name value lacks found.
                rw ((equal_iff arg (codes "--" ++ n)).0 bare) (bare-sets-nothing n name here))
        | inr next ↦
            rw (differs, next)
              (beside-Matched arg n v table (match_option arg table) differs
                (match_option-Matched arg table rest))
      ]
    ]

abbrev pub StillNamed : Match → Type 0
StillNamed (assigned table) = IsNamed table
StillNamed _ = Unit

beside-StillNamed :
    (n v : Bytes) (m : Match) → Lacks b'=' n → StillNamed m → StillNamed (beside (n, v) m)
beside-StillNamed n v (assigned table) here rest = (here, rest)
beside-StillNamed n v missing_value here rest = tt
beside-StillNamed n v unknown_option here rest = tt

match_option-StillNamed :
    (arg : Bytes) (table : Table) → IsNamed table → StillNamed (match_option arg table)
unfolding match_option
match_option-StillNamed arg [] h = tt
match_option-StillNamed arg ((n, v) ∷ table) (here, rest) =
    elim (Bool-cases (starts_with arg (assignment n))) [
      | inl begins ↦ rw begins (here, rest)
      | inr differs ↦ elim (Bool-cases (equal arg (codes "--" ++ n))) [
        | inl bare ↦ rw (differs, bare) tt
        | inr next ↦
            rw (differs, next)
              (beside-StillNamed n v (match_option arg table) here
                (match_option-StillNamed arg table rest))
      ]
    ]

-- One round of the loop over the arguments, before the others.
abbrev pub Follows : Bytes → List Bytes → Type 0
Follows name args =
    (table : Table) (help : Bool) (value : Bytes)
    → IsNamed table
    → lookup name table ≡ some value
    → lookup name (read_arguments args table help).0 ≡ some (chosen name value args)

abbrev pub rest_of : List Bytes → Table → Bool → Match → Table × Bool
rest_of args table help (assigned table') = read_arguments args table' help
rest_of args table help missing_value = read_arguments args table true
rest_of args table help unknown_option = read_arguments args table true

rest_of-chosen :
    (name arg : Bytes) (args : List Bytes) (table : Table) (help : Bool) (value : Bytes) (m : Match)
    → Follows name args
    → IsNamed table
    → Lacks b'=' name
    → lookup name table ≡ some value
    → Matched arg table m
    → StillNamed m
    → lookup name (rest_of args table help m).0 ≡ some (chosen name value (arg ∷ args))
rest_of-chosen name arg args table help value (assigned table') follows h lacks found matched
      named =
    follows table' help (set_by arg name value) named (matched name value lacks found)
rest_of-chosen name arg args table help value missing_value follows h lacks found matched named =
    rw (matched name value lacks found) (follows table true value h found)
rest_of-chosen name arg args table help value unknown_option follows h lacks found matched named =
    rw (matched name value lacks found) (follows table true value h found)

read_arguments-rest :
    (arg : Bytes) (args : List Bytes) (table : Table) (help : Bool)
    → read_arguments (arg ∷ args) table help ≡ rest_of args table help (match_option arg table)
unfolding read_arguments
read_arguments-rest arg args table help =
    elim (match_option arg table)
      as (λ m.
        (elim m [
          | assigned table' ↦ read_arguments args table' help
          | _ ↦ read_arguments args table true
        ])
        ≡ rest_of args table help m) [
          | assigned table' ↦ refl
          | missing_value ↦ refl
          | unknown_option ↦ refl
        ]

-- The value of an option behind the arguments of the command line is what stands behind the "="
-- of the last argument that begins with "--", the name and "=", or the value it had before if
-- there is none, in a table where no name has an "=", for a name that has none and has a value.
pub read_arguments-chosen :
    (args : List Bytes) (name : Bytes)
    → Lacks b'=' name
    → (table : Table) (help : Bool) (value : Bytes) → IsNamed table
    → lookup name table ≡ some value
    → lookup name (read_arguments args table help).0 ≡ some (chosen name value args)
unfolding read_arguments
read_arguments-chosen [] name lacks table help value h found = found
read_arguments-chosen (arg ∷ args) name lacks table help value h found =
    ap (λ r. lookup name r.0) (read_arguments-rest arg args table help)
    ∙ rest_of-chosen name arg args table help value (match_option arg table)
        (read_arguments-chosen args name lacks) h lacks found (match_option-Matched arg table h)
        (match_option-StillNamed arg table h)
