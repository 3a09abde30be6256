-- ===== src/Sane/Library/Counting.antt =====
-- The count of the users of SANE is that of the holders, and SANE is called in order.
use mathlib.Core.Path.{subst}
use air_sane.Prelude.{
  ℕ, suc, ◌+◌, ◌-◌, ◌≡◌, refl, ap, ◌∙◌, true, false, List, [], ◌∷◌, ◌++◌, Option, none, some, ◌==◌,
  if◌then◌else◌, arith, Bool-cases, Option-cases, inl, inr,
}
use air_sane.Sane.{ok}
use air_sane.Sane.Session.{is_good}
use air_sane.Sane.Library.{
  Call, sane_init, sane_exit, sane_close, sane_get_devices, sane_open, Library, call, add_ref,
  release, open_counted, close_counted, enumerate_devices, Use, make_init, drop_init, drop_handle,
  enumerate, make_handle, use_library, use_all, fresh_library, Holders, held, held_after, Phase,
  off, on, next_phase, phase_after, phase_of,
}

abbrev pub then_phase : Option Phase → Call → Option Phase
then_phase none c = none
then_phase (some p) c = next_phase p c

phase_after-append :
    (p : Phase) (calls : List Call) (c : Call)
    → phase_after p (calls ++ c ∷ []) ≡ then_phase (phase_after p calls) c
unfolding phase_after
phase_after-append p [] c = ground arith
phase_after-append p (d ∷ calls) c = elim (Option-cases (next_phase p d)) [
  | inl bad ↦ rw (bad, phase_after) refl
  | inr (q, e) ↦ rw (e, phase_after) (phase_after-append q calls c)
]

-- The count is that of the holders, and the calls so far were in order and led to their phase.
pub record IsCounted (h : Holders) (l : Library) : Type 0 where
  pub counted : l.refcount ≡ h.inits + h.handles
  pub phase : phase_after off l.calls ≡ some (phase_of h)

-- One more user: SANE is on then.
add_ref-IsOn :
    (h : Holders) (l : Library)
    → IsCounted h l
    → ((add_ref l).refcount ≡ h.inits + h.handles + 1)
      × (phase_after off (add_ref l).calls ≡ some (on h.handles))
unfolding add_ref
add_ref-IsOn h l i = elim (Bool-cases (l.refcount == 0)) [
  | inl first ↦
      let e : l.refcount ≡ 0 = ground (arith, first) in
      let none_held : h.handles ≡ 0 = omega (arith, e, i.counted) in
      let idle : (h.inits + h.handles == 0) ≡ true = ground (arith, first, i.counted) in
      (
        ground (arith, i.counted),
        rw e (phase_after-append off l.calls sane_init ∙ rw (i.phase, idle) (rw none_held refl)),
      )
  | inr more ↦
      let busy : (h.inits + h.handles == 0) ≡ false = ground (arith, more, i.counted) in
      let later : (l.refcount + 1 == 1) ≡ false = ground (arith, more) in
      (ground (arith, i.counted), rw later (i.phase ∙ rw busy refl))
]

-- One user less: SANE ends with the last one, which no handle may outlive.
release-ends :
    (r n : ℕ) (l : Library)
    → l.refcount ≡ suc r
    → phase_after off l.calls ≡ some (on n)
    → ((r == 0) ≡ true → (n == 0) ≡ true)
    → (l' : Library) × (release l ≡ ok l')
      × (l'.refcount ≡ r)
      × (phase_after off l'.calls ≡ some (if r == 0 then off else on n))
unfolding release
release-ends r n l e p outlives =
    let left : l.refcount - 1 ≡ r = omega (arith, e) in
    let used : (l.refcount == 0) ≡ false = ground (arith, e) in
    let counted : Library = record l { refcount = l.refcount - 1 } in
    elim (Bool-cases (r == 0)) [
      | inl last ↦ (
        call sane_exit counted,
        rw (used, left, last) refl,
        left,
        phase_after-append off l.calls sane_exit ∙ rw (p, outlives last, last) refl,
      )
      | inr more ↦ (counted, rw (used, left, more) refl, left, p ∙ rw more refl)
    ]

release-IsCounted :
    (h : Holders) (l : Library)
    → l.refcount ≡ h.inits + h.handles + 1
    → phase_after off l.calls ≡ some (on h.handles)
    → (l' : Library) × (release l ≡ ok l') × IsCounted h l'
release-IsCounted h l e p =
    let (l', ended, count, phase) =
      release-ends (h.inits + h.handles) h.handles l (omega (arith, e)) p (λ last. ground arith) in
    (l', ended, record { counted = count; phase = phase })

-- SANE is on while there are users, in the phase that the holders say.
IsCounted-used :
    (h : Holders) (l : Library)
    → (h.inits + h.handles == 0) ≡ false
    → l.refcount ≡ h.inits + h.handles
    → phase_after off l.calls ≡ some (on h.handles)
    → IsCounted h l
IsCounted-used h l used e p = record { counted = e; phase = p ∙ rw used refl }

IsCounted-on :
    (h : Holders) (l : Library)
    → IsCounted h l
    → (h.inits + h.handles == 0) ≡ false
    → phase_after off l.calls ≡ some (on h.handles)
IsCounted-on h l i used = i.phase ∙ rw used refl

-- A use of what there is succeeds, and the count stays that of the holders.
use_library-IsCounted :
    (u : Use) (h h' : Holders) (l : Library)
    → IsCounted h l
    → held u h ≡ some h'
    → (l' : Library) × (use_library u l ≡ ok l') × IsCounted h' l'
unfolding use_library open_counted close_counted enumerate_devices
use_library-IsCounted make_init h h' l i e =
    let (count, phase) = add_ref-IsOn h l i in
    let h1 : Holders = record h { inits = h.inits + 1 } in
    let same : h1 ≡ h' = cc in
    (
      add_ref l,
      refl,
      subst (λ (k : Holders). IsCounted k (add_ref l)) same
          (IsCounted-used h1 (add_ref l) (ground arith) (omega (arith, count)) phase),
    )
use_library-IsCounted drop_init h h' l i e = elim (Bool-cases (h.inits == 0)) [
  | inl gone ↦ absurd (ground (arith, e, gone))
  | inr there ↦
      let h1 : Holders = record h { inits = h.inits - 1 } in
      let same : h1 ≡ h' = ground (arith, e, there) in
      let (l', ended, counted) =
        release-IsCounted h1 l (ground (arith, i.counted, there))
          (IsCounted-on h l i (ground (arith, there))) in
      (l', ended, subst (λ (k : Holders). IsCounted k l') same counted)
]
use_library-IsCounted (make_handle status) h h' l i e =
    let (count, phase) = add_ref-IsOn h l i in
    let opened = call (sane_open status) (add_ref l) in
    let after =
      phase_after-append off (add_ref l).calls (sane_open status)
      ∙ ap (λ p. then_phase p (sane_open status)) phase in
    elim (Bool-cases (is_good status)) [
      | inl given ↦
          let h1 : Holders = record h { handles = h.handles + 1 } in
          let same : h1 ≡ h' = ground (arith, e, given) in
          (
            opened,
            rw given refl,
            subst (λ (k : Holders). IsCounted k opened) same
                (IsCounted-used h1 opened (ground arith) (omega (arith, count))
                  (after ∙ rw given refl)),
          )
      | inr refused ↦
          let same : h ≡ h' = ground (arith, e, refused) in
          let (l', ended, counted) = release-IsCounted h opened count (after ∙ rw refused refl) in
          (l', rw refused ended, subst (λ (k : Holders). IsCounted k l') same counted)
    ]
use_library-IsCounted drop_handle h h' l i e = elim (Bool-cases (h.handles == 0)) [
  | inl gone ↦ absurd (ground (arith, e, gone))
  | inr there ↦
      let h1 : Holders = record h { handles = h.handles - 1 } in
      let same : h1 ≡ h' = ground (arith, e, there) in
      let (l', ended, counted) =
        release-IsCounted h1 (call sane_close l) (ground (arith, i.counted, there)) (
          phase_after-append off l.calls sane_close
          ∙ ap (λ p. then_phase p sane_close) (IsCounted-on h l i (ground (arith, there)))
          ∙ rw there refl) in
      (l', ended, subst (λ (k : Holders). IsCounted k l') same counted)
]
use_library-IsCounted enumerate h h' l i e =
    let (count, phase) = add_ref-IsOn h l i in
    let same : h ≡ h' = cc in
    let asked = call sane_get_devices (add_ref l) in
    let (l', ended, counted) =
      release-IsCounted h asked count
        (phase_after-append off (add_ref l).calls sane_get_devices ∙ rw phase refl) in
    (l', ended, subst (λ (k : Holders). IsCounted k l') same counted)

use_all-IsCounted :
    (uses : List Use) (h h' : Holders) (l : Library)
    → IsCounted h l
    → held_after uses h ≡ some h'
    → (l' : Library) × (use_all uses l ≡ ok l') × IsCounted h' l'
unfolding use_all held_after
use_all-IsCounted [] h h' l i e =
    (l, refl, subst (λ (k : Holders). IsCounted k l) (ground (arith, e)) i)
use_all-IsCounted (u ∷ uses) h h' l i e = elim (Option-cases (held u h)) [
  | inl bad ↦ absurd (ground (arith, rw (bad, held_after) at e))
  | inr (h1, step) ↦
      let (l1, done, counted) = use_library-IsCounted u h h1 l i step in
      let (l', rest, last) = use_all-IsCounted uses h1 h' l1 counted (rw (step, held_after) at e) in
      (l', rw (done, use_all) rest, last)
]

-- For any sequence of init objects, handles and enumerations, in which only what there is goes
-- away, no assertion fails, the count is the number of init objects and handles, and SANE has
-- been called in order: nothing else while it is off, no second sane_init, no handle closed that
-- was not open, and sane_exit with no handle open. It is on exactly while there are init objects
-- or handles.
pub use_all-IsBracketed :
    (uses : List Use) (h : Holders)
    → held_after uses (record { inits = 0; handles = 0 }) ≡ some h
    → (l : Library) × (use_all uses fresh_library ≡ ok l)
      × (l.refcount ≡ h.inits + h.handles)
      × (phase_after off l.calls ≡ some (phase_of h))
unfolding phase_after
use_all-IsBracketed uses h e =
    let (l, done, counted) =
      use_all-IsCounted uses (record { inits = 0; handles = 0 }) h fresh_library
        (record { counted = refl; phase = refl }) e in
    (l, done, counted.counted, counted.phase)
