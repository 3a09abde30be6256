-- ===== src/OptionSet/Ending.antt =====
-- Writes to an option return on a device whose number of options does not change.
use air_sane.Prelude.{
  ℕ, ◌<◌, ◌≡◌, refl, ◌&&◌, Bool, true, false, [], ◌∷◌, Option, none, some, ◌==◌, ltb, if◌then◌else◌,
}
use air_sane.Prelude.Int.{ℤ}
use air_sane.Text.{Bytes}
use air_sane.Sane.{SaneStatus, Run, ok, ◌>>=◌}
use air_sane.Sane.Session.{is_good}
use air_sane.OptionSet.{
  Entry, Device, OptionSet, finish_write, set_string_value, array_size, is_settable, is_active,
  is_string, is_numeric, init,
}
use air_sane.OptionSet.Words.{Numbers, set_word, write_word, set_numeric_value, set_value, word_of}
use air_sane.OptionSet.Reloading.{HasOptions, init-reload-Refreshes}

abbrev pub Returns {ℓ} : {A : Type ℓ} → Run A → Type ℓ
Returns {A = A} m = (x : A) × (m ≡ ok x)

-- A chain returns if its parts do.
pub Returns->>= {ℓ κ} :
    {A : Type ℓ} {B : Type κ} (m : Run A) (f : A → Run B)
    → Returns m
    → ((x : A) → Returns (f x))
    → Returns (m >>= f)
Returns->>= m f (x, e) rest = rw e (rest x)

pub Returns-if {ℓ} :
    {A : Type ℓ} (b : Bool) (m k : Run A) → Returns m → Returns k → Returns (if b then m else k)
Returns-if true m k h h' = h
Returns-if false m k h h' = h'

module _ (device : Device) where
  open device use {World, Pointer}

  -- The device has the same number of options at any time.
  abbrev pub IsSteady : ℕ → Type 0
  IsSteady n = (w : World) → HasOptions device w n

  module _ (n fuel : ℕ) (steady : IsSteady n) (enough : n < fuel) where
    pub init-Returns : (w : World) → Returns (init device fuel true w)
    init-Returns w =
        let done =
          (init-reload-Refreshes device w fuel n (record { has_device = true; options = [] })
            (steady w) enough).0 in
        (done.0, done.1)

    finish_write-Returns :
        (s : OptionSet Pointer) (answer : SaneStatus × Bool) (w : World)
        → Returns (finish_write device fuel s answer w)
    unfolding finish_write
    finish_write-Returns s (status, false) w = ((is_good status, s, w), refl)
    finish_write-Returns s (status, true) w =
        let done = (init-reload-Refreshes device w fuel n s (steady w) enough).1 in
        ((is_good status, done.0, w), rw (done.1) refl)

    pub set_string_value-Returns :
        (o : Option (Entry Pointer)) (i : ℕ) (value : Bytes) (s : OptionSet Pointer) (w : World)
        → Returns (set_string_value device fuel o i value (s, w))
    unfolding set_string_value
    set_string_value-Returns none i value s w = ((false, s, w), refl)
    set_string_value-Returns (some e) i value s w =
        let written = device.set_string e.index value w in
        Returns-if
          (s.has_device
            && is_string device e w
            && i == 0
            && is_settable device e w
            && is_active device e w)
          (finish_write device fuel s written.0 written.1) (ok (false, s, w))
          (finish_write-Returns s written.0 written.1) ((false, s, w), refl)

    module _ {D : Type 0} (d : Numbers D) where
      write_word-Returns :
          (e : Entry Pointer) (i : ℕ) (x : ℤ) (s : OptionSet Pointer) (w : World)
          → Returns (write_word device d fuel e i x s w)
      unfolding write_word
      write_word-Returns e i x s w =
          let got = device.get_words e.index w in
          let written = device.set_words e.index (set_word (got.0).1 i x) got.1 in
          Returns-if (is_good (got.0).0) (finish_write device fuel s written.0 written.1)
            (ok (false, s, got.1)) (finish_write-Returns s written.0 written.1)
            ((false, s, got.1), refl)

      pub set_numeric_value-Returns :
          (o : Option (Entry Pointer)) (i : ℕ) (x : D) (s : OptionSet Pointer) (w : World)
          → Returns (set_numeric_value device d fuel o i x (s, w))
      unfolding set_numeric_value
      set_numeric_value-Returns none i x s w = ((false, s, w), refl)
      set_numeric_value-Returns (some e) i x s w =
          let y = word_of device d (device.descriptor e.pointer w).value_type x in
          let written = device.set_words e.index (y ∷ []) w in
          let alone = finish_write device fuel s written.0 written.1 in
          let shared =
            if ltb i (array_size device e w)
            then write_word device d fuel e i y s w
            else ok (true, s, w) in
          Returns-if
            (s.has_device
              && is_numeric device e w
              && is_settable device e w
              && is_active device e w)
            (if array_size device e w == 1 && i == 0 then alone else shared) (ok (false, s, w))
            (Returns-if (array_size device e w == 1 && i == 0) alone shared
              (finish_write-Returns s written.0 written.1)
              (Returns-if (ltb i (array_size device e w)) (write_word device d fuel e i y s w)
                (ok (true, s, w)) (write_word-Returns e i y s w) ((true, s, w), refl)))
            ((false, s, w), refl)

      pub set_value-Returns :
          (o : Option (Entry Pointer)) (i : ℕ) (text : Bytes) (s : OptionSet Pointer) (w : World)
          → Returns (set_value device d fuel o i text (s, w))
      unfolding set_value
      set_value-Returns o i text s w =
          Returns->>= (set_string_value device fuel o i text (s, w)) _
            (set_string_value-Returns o i text s w)
            (λ r.
              Returns-if r.0 (ok (true, r.1, r.2))
                (set_numeric_value device d fuel o i (d.strtod_c text) (r.1, r.2))
                ((true, r.1, r.2), refl) (set_numeric_value-Returns o i (d.strtod_c text) r.1 r.2))
