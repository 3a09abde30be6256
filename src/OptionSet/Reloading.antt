-- ===== src/OptionSet/Reloading.antt =====
-- The map of options after `init` and `reload`, against the options that the device has.
use air_sane.Prelude.{
  ℕ, zero, suc, ◌+◌, ◌<◌, ◌≤◌, ◌≡◌, ◌≢◌, refl, ◌∙◌, true, false, List, [], ◌∷◌, Option, none, some,
  null, if◌then◌else◌, arith, ◌⊎◌, inl, inr, Bool-cases, Option-cases, ◌==◌, ltb,
}
use air_sane.Text.{Bytes, equal, equal_iff}
use air_sane.Sane.{ok}
use air_sane.OptionSet.{
  Entry, Device, OptionSet, find_option, put_option, register, init, reload, get,
}

pub find_option-put_option :
    {P : Type 0} (m : List (Bytes × Entry P)) (key other : Bytes) (e : Entry P)
    → find_option (put_option m key e) other
      ≡ (if equal key other then some e else find_option m other)
unfolding find_option put_option
find_option-put_option [] key other e = refl
find_option-put_option ((k, d) ∷ m) key other e = ground (
  arith,
  find_option-put_option m key other e,
  equal_iff k key,
  equal_iff k other,
  equal_iff key other,
)

module _ (device : Device) (w : device.World) where
  open device use {Pointer, get_option_descriptor, descriptor}

  -- The device has the options 1 to `n`, besides the option 0 that counts them.
  pub record HasOptions (n : ℕ) : Type 0 where
    pub within : (i : ℕ) → i ≤ n → get_option_descriptor i w ≢ none
    pub behind : (i : ℕ) → n < i → get_option_descriptor i w ≡ none

  -- No option from index `i` on has the name.
  abbrev pub IsUnnamed : ℕ → Bytes → Type 0
  IsUnnamed i name =
      (j : ℕ) (d : Pointer)
      → i ≤ j
      → get_option_descriptor j w ≡ some d
      → equal (descriptor d w).name name ≡ false

  -- The entry is the last option that has the name, and its index is `i` at least.
  abbrev pub IsLast : ℕ → Bytes → Entry Pointer → Type 0
  IsLast i name e =
      (i ≤ e.index)
      × (get_option_descriptor e.index w ≡ some e.pointer)
      × (equal (descriptor e.pointer w).name name ≡ true)
      × IsUnnamed (e.index + 1) name

  -- What a name stands for after the options have been read from index `i` on.
  abbrev pub Refreshed : ℕ → Bytes → Option (Entry Pointer) → Option (Entry Pointer) → Type 0
  Refreshed i name old new =
      ((e : Entry Pointer) × (new ≡ some e) × IsLast i name e) ⊎ (IsUnnamed i name × (new ≡ old))

  abbrev pub registered : ℕ → Pointer → List (Bytes × Entry Pointer) → List (Bytes × Entry Pointer)
  registered i d m =
      if null (descriptor d w).name
      then m
      else put_option m (descriptor d w).name (record { pointer = d; index = i })

  find_option-registered :
      (i : ℕ) (d : Pointer) (m : List (Bytes × Entry Pointer)) (name : Bytes)
      → null name ≡ false
      → find_option (registered i d m) name ≡ (
          if equal (descriptor d w).name name
          then some (record { pointer = d; index = i })
          else find_option m name)
  find_option-registered i d m name named = elim (Bool-cases (null (descriptor d w).name)) [
    | inl empty ↦
        let differs : equal (descriptor d w).name name ≡ false =
          ground (arith, empty, named, equal_iff (descriptor d w).name name) in
        rw (empty, differs) refl
    | inr there ↦
        rw there
          (find_option-put_option m (descriptor d w).name name (record { pointer = d; index = i }))
  ]

  IsUnnamed-here :
      (i : ℕ) (d : Pointer) (name : Bytes)
      → get_option_descriptor i w ≡ some d
      → equal (descriptor d w).name name ≡ false
      → IsUnnamed (i + 1) name
      → IsUnnamed i name
  IsUnnamed-here i d name here miss later j d' le at = elim (Bool-cases (i == j)) [
    | inl same ↦ ground (arith, here, miss, at, same)
    | inr differs ↦ later j d' (ground (arith, differs)) at
  ]

  index_le :
      (n i : ℕ) (d : Pointer) → HasOptions n → get_option_descriptor i w ≡ some d → i + 1 ≤ n + 1
  index_le n i d h here = elim (Bool-cases (ltb n i)) [
    | inl past ↦ absurd (ground (arith, here, past, h.behind i))
    | inr inside ↦ ground (arith, inside)
  ]

  IsUnnamed-behind :
      (n i : ℕ) (name : Bytes) → HasOptions n → get_option_descriptor i w ≡ none → IsUnnamed i name
  IsUnnamed-behind n i name h end j d le at = elim (Bool-cases (ltb n i)) [
    | inl past ↦ absurd (ground (arith, at, past, h.behind j))
    | inr inside ↦ absurd (h.within i (ground (arith, inside)) end)
  ]

  -- One round of the loop, before the rest of it.
  Refreshed-registered :
      (i : ℕ) (d : Pointer) (m : List (Bytes × Entry Pointer)) (name : Bytes)
      (new : Option (Entry Pointer))
      → null name ≡ false
      → get_option_descriptor i w ≡ some d
      → Refreshed (i + 1) name (find_option (registered i d m) name) new
      → Refreshed i name (find_option m name) new
  Refreshed-registered i d m name new named here (inl (e, same, last)) =
      inl (e, same, (omega (arith, last.0), last.1, last.2, last.3))
  Refreshed-registered i d m name new named here (inr (later, same)) =
      let found = same ∙ find_option-registered i d m name named in
      elim (Bool-cases (equal (descriptor d w).name name)) [
        | inl hit ↦ inl (
          record { pointer = d; index = i },
          found ∙ rw hit refl,
          (omega arith, here, hit, later),
        )
        | inr miss ↦ inr (IsUnnamed-here i d name here miss later, found ∙ rw miss refl)
      ]

  register-Refreshed :
      (fuel n i : ℕ) (m : List (Bytes × Entry Pointer))
      → HasOptions n
      → i ≤ n + 1
      → n + 1 < i + fuel
      → (m' : List (Bytes × Entry Pointer)) × (register device fuel i m w ≡ ok m')
        × ((name : Bytes)
            → null name ≡ false
            → Refreshed i name (find_option m name) (find_option m' name))
  unfolding register
  register-Refreshed zero n i m h le f = absurd (omega arith)
  register-Refreshed (suc fuel) n i m h le f = elim (Option-cases (get_option_descriptor i w)) [
    | inl end ↦
        (m, rw (end, register) refl, λ name named. inr (IsUnnamed-behind n i name h end, refl))
    | inr (d, here) ↦
        let (m', e, fresh) =
          register-Refreshed fuel n (i + 1) (registered i d m) h (index_le n i d h here)
            (omega arith) in
        (
          m',
          rw (here, register) e,
          λ name named.
              Refreshed-registered i d m name (find_option m' name) named here (fresh name named),
        )
  ]

  -- What the users of an option set see of it, and what reading the options makes of that.
  abbrev pub Table : Type 0
  Table = Bytes → Option (Entry Pointer)

  abbrev pub Refreshes : Table → Table → Type 0
  Refreshes old new = (name : Bytes) → null name ≡ false → Refreshed 1 name (old name) (new name)

  -- Reading the options of a device with `n` options returns for fuel greater than n, and
  -- implements a table from names to options: behind `init`, a name stands for the last option of
  -- the device that has it, or for none; behind `reload`, for the last option that has it, or for
  -- what it stood for before if no option has it.
  pub init-reload-Refreshes :
      (fuel n : ℕ) (s : OptionSet Pointer)
      → HasOptions n
      → n < fuel
      → ((new : OptionSet Pointer) × (init device fuel true w ≡ ok new)
          × (new.has_device ≡ true)
          × Refreshes (λ _. none) (get device new))
        × ((new : OptionSet Pointer) × (reload device fuel s w ≡ ok new)
            × (new.has_device ≡ s.has_device)
            × Refreshes (get device s) (get device new))
  unfolding init reload find_option
  init-reload-Refreshes fuel n s h f =
      let (m, e, fresh) = register-Refreshed fuel n 1 [] h (omega arith) (omega arith) in
      let (m', e', fresh') = register-Refreshed fuel n 1 s.options h (omega arith) (omega arith) in
      (
        (record { has_device = true; options = m }, rw e refl, refl, fresh),
        (record s { options = m' }, rw e' refl, refl, fresh'),
      )
