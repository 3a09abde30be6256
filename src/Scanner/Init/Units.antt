-- ===== src/Scanner/Init/Units.antt =====
-- What `InputSource::init` answers for the units of a scan area (server/scanner.cpp).
use air_sane.Prelude.{
  ℕ, ◌≡◌, ◌≢◌, refl, sym, ap, ◌∙◌, ◌⊎◌, inl, inr, ◌||◌, Bool, true, false, List, [], Option, none,
  some, null, ◌==◌, arith, Bool-cases, if◌then◌else◌,
}
use air_sane.Text.{Bytes, codes}
use air_sane.OptionSet.{
  Device, OptionSet, OptionUnit, no_unit, pixel, bit, mm, dpi, percent, microsecond,
}
use air_sane.OptionSet.Words.{Numbers}
use air_sane.OptionSet
use air_sane.Scanner.Capabilities.{InputSource}
use air_sane.Scanner.Init.Sources.{
  OptionNames, Arithmetic, Source, Progress, State, unit_code, same_unit, unit_at, has_option,
  has_area, is_consistent, scale, init_area, init_source, take_source,
}

abbrev pub is_some : {A : Type 0} → Option A → Bool
is_some none = false
is_some (some x) = true

abbrev unit_from : ℕ → OptionUnit
unit_from c =
    if c == 1
    then pixel
    else if c == 2
    then bit
    else if c == 3
    then mm
    else if c == 4
    then dpi
    else if c == 5
    then percent
    else if c == 6
    then microsecond
    else no_unit

unit_from-unit_code : (u : OptionUnit) → unit_from (unit_code u) ≡ u
unit_from-unit_code no_unit = refl
unit_from-unit_code pixel = refl
unit_from-unit_code bit = refl
unit_from-unit_code mm = refl
unit_from-unit_code dpi = refl
unit_from-unit_code percent = refl
unit_from-unit_code microsecond = refl

same_unit-true : (u v : OptionUnit) → same_unit u v ≡ true → u ≡ v
same_unit-true u v h =
    sym (unit_from-unit_code u)
    ∙ ap unit_from {x = unit_code u} {y = unit_code v} (ground (arith, h))
    ∙ unit_from-unit_code v

module _ (device : Device) {D : Type 0} (n : Numbers D) (a : Arithmetic D)
    (names : OptionNames) where
  -- The device has the four options of a scan area.
  pub record HasArea (st : State device) : Type 0 where
    pub left : has_option device n a names names.tl_x st ≡ true
    pub top : has_option device n a names names.tl_y st ≡ true
    pub right : has_option device n a names names.br_x st ≡ true
    pub bottom : has_option device n a names names.br_y st ≡ true

  -- All four are in one unit.
  pub record IsIn (u : OptionUnit) (st : State device) : Type 0 where
    pub left : unit_at device n a names names.tl_x st ≡ u
    pub top : unit_at device n a names names.tl_y st ≡ u
    pub right : unit_at device n a names names.br_x st ≡ u
    pub bottom : unit_at device n a names names.br_y st ≡ u

  -- The error that goes with the options of a device.
  pub data Verdict (st : State device) : Option Bytes → Type 0 where
    no_area : (HasArea st → ⊥) → Verdict st none
    in_mm : HasArea st → IsIn mm st → Verdict st none
    in_pixel : HasArea st → IsIn pixel st → Verdict st none
    inconsistent :
        HasArea st
        → ((u : OptionUnit) → IsIn u st → ⊥)
        → Verdict st (some (codes "inconsistent unit in scan area parameters"))
    unexpected :
        HasArea st
        → (u : OptionUnit) → IsIn u st
        → u ≢ mm
        → u ≢ pixel
        → Verdict st (some (codes "unexpected unit in scan area parameters"))

  -- A source with the error that its initialisation gave: it has no intents exactly if there is one.
  abbrev pub SourceTold : Source D → Option Bytes → Type 0
  SourceTold src error =
      ((st : State device) × Verdict st error) × (is_some error ≡ null src.area.supported_intents)

  scale-Verdict :
      (u : OptionUnit) (area : InputSource D) (st st' : State device)
      → HasArea st
      → IsIn u st
      → Verdict st (scale device n a names u area st').0.0
  unfolding scale
  scale-Verdict mm area st st' has unit = in_mm has unit
  scale-Verdict pixel area st st' has unit = in_pixel has unit
  scale-Verdict no_unit area st st' has unit = unexpected has no_unit unit (λ e. cc) (λ e. cc)
  scale-Verdict bit area st st' has unit = unexpected has bit unit (λ e. cc) (λ e. cc)
  scale-Verdict dpi area st st' has unit = unexpected has dpi unit (λ e. cc) (λ e. cc)
  scale-Verdict percent area st st' has unit = unexpected has percent unit (λ e. cc) (λ e. cc)
  scale-Verdict microsecond area st st' has unit =
      unexpected has microsecond unit (λ e. cc) (λ e. cc)

  has_area-HasArea : (st : State device) → has_area device n a names st ≡ true → HasArea st
  has_area-HasArea st h = record {
    left = ground (arith, h);
    top = ground (arith, h);
    right = ground (arith, h);
    bottom = ground (arith, h);
  }

  is_consistent-IsIn :
      (st : State device)
      → is_consistent device n a names st ≡ true
      → IsIn (unit_at device n a names names.tl_x st) st
  is_consistent-IsIn st h = record {
    left = refl;
    top = same_unit-true _ _ (ground (arith, h));
    right = same_unit-true _ _ (ground (arith, h));
    bottom = same_unit-true _ _ (ground (arith, h));
  }

  IsIn-consistent :
      (u : OptionUnit) (st : State device)
      → IsIn u st
      → is_consistent device n a names st ≡ false
      → ⊥
  IsIn-consistent u st one differ = ground (
    arith,
    differ,
    ap unit_code one.left,
    ap unit_code one.top,
    ap unit_code one.right,
    ap unit_code one.bottom,
  )

  init_area-Verdict :
      (area : InputSource D) (st : State device)
      → Verdict st (init_area device n a names area st).0.0
  unfolding init_area
  init_area-Verdict area st = elim (Bool-cases (has_area device n a names st)) [
    | inr lacks ↦
        rw lacks (
          no_area (λ has. absurd (ground (arith, lacks, has.left, has.top, has.right, has.bottom))))
    | inl there ↦
        let has = has_area-HasArea st there in
        elim (Bool-cases (is_consistent device n a names st)) [
          | inl agree ↦
              rw (there, agree) (scale-Verdict _ _ st st has (is_consistent-IsIn st agree))
          | inr differ ↦
              rw (there, differ)
                (inconsistent has (λ u one. absurd (IsIn-consistent u st one differ)))
        ]
  ]

  -- The area is given its intents later.
  scale-intents :
      (u : OptionUnit) (area : InputSource D) (st : State device)
      → (scale device n a names u area st).0.1.supported_intents ≡ area.supported_intents
  unfolding scale
  scale-intents mm area st = refl
  scale-intents pixel area st = refl
  scale-intents no_unit area st = refl
  scale-intents bit area st = refl
  scale-intents dpi area st = refl
  scale-intents percent area st = refl
  scale-intents microsecond area st = refl

  init_area-intents :
      (area : InputSource D) (st : State device)
      → (init_area device n a names area st).0.1.supported_intents ≡ area.supported_intents
  unfolding init_area
  init_area-intents area st = elim (Bool-cases (has_area device n a names st)) [
    | inr lacks ↦ rw lacks (scale-intents mm area st)
    | inl there ↦ elim (Bool-cases (is_consistent device n a names st)) [
      | inl agree ↦ rw (there, agree) (scale-intents _ _ st)
      | inr differ ↦ rw (there, differ) refl
    ]
  ]

  take_source-Told :
      (intents : List Bytes) (p : Progress D) (found : Option Bytes × Source D) (st : State device)
      → null intents ≡ false
      → Verdict st found.0
      → found.1.area.supported_intents ≡ []
      → (src : Source D) × ((take_source device n a names intents p found).0 ≡ some src)
        × SourceTold src (take_source device n a names intents p found).1.error
  unfolding take_source
  take_source-Told intents p (none, found) st given verdict bare =
      (_, refl, ((st, verdict), sym given))
  take_source-Told intents p (some error, found) st given verdict bare =
      (found, refl, ((st, verdict), rw bare refl))

  -- A source that has been read, with its error.
  pub init_source-Told :
      (intents : List Bytes) (p : Progress D) (st : State device)
      → null intents ≡ false
      → let x = take_source device n a names intents p (init_source device n a names st).0 in
        (src : Source D) × (x.0 ≡ some src) × SourceTold src x.1.error
  unfolding init_source
  init_source-Told intents p (s, w) given =
      let (name, w') =
        OptionSet.string_value device (OptionSet.get device s names.source) 0 (s, w) in
      take_source-Told intents p (init_source device n a names (s, w)).0 (s, w') given
        (init_area-Verdict _ (s, w')) (init_area-intents _ (s, w'))

  -- What a source that may be missing does to the error.
  abbrev pub Told : Progress D → Option (Source D) × Progress D → Type 0
  Told p (found, p') =
      ((found ≡ none) × (p' ≡ p))
      ⊎ ((src : Source D) × (found ≡ some src) × SourceTold src p'.error)

  -- The last source that there is, in the order in which they are read.
  abbrev pub last_source :
      Option (Source D) → Option (Source D) → Option (Source D) → Option (Source D)
  last_source platen simplex (some src) = some src
  last_source platen (some src) none = some src
  last_source platen none none = platen

  -- The error is that of the last source.
  abbrev pub IsTold : Option (Source D) → Option Bytes → Type 0
  IsTold found error = (src : Source D) × (found ≡ some src) × SourceTold src error

  pub Told-last :
      (platen simplex duplex : Option (Source D)) (p0 p p' p'' : Progress D)
      → Told p0 (platen, p)
      → Told p (simplex, p')
      → Told p' (duplex, p'')
      → is_some platen || is_some simplex || is_some duplex ≡ true
      → IsTold (last_source platen simplex duplex) p''.error
  Told-last platen simplex duplex p0 p p' p'' first second third some_one = elim third [
    | inr (src, found, told) ↦ (src, rw found refl, told)
    | inl (no_duplex, same) ↦ elim second [
      | inr (src, found, told) ↦ (src, rw (no_duplex, found) refl, rw same told)
      | inl (no_simplex, same') ↦ elim first [
        | inr (src, found, told) ↦ (src, rw (no_duplex, no_simplex) found, rw (same, same') told)
        | inl (no_platen, same'') ↦
            absurd (ground (arith, some_one, no_platen, no_simplex, no_duplex))
      ]
    ]
  ]
