-- ===== src/ScanJob/Reading.antt =====
-- A device with finitely much data, and the loop of `session::read` (sanecpp/sanecpp.cpp) on it.
use air_sane.Prelude.{
  ℕ, zero, suc, ◌-◌, ◌≤◌, ◌<◌, ◌≡◌, Bool, true, false, some, arith, inl, inr, Bool-cases, ltb,
  length, ◌++◌, ◌||◌,
}
use air_sane.Text.{Bytes}
use air_sane.Sane.{SaneStatus, good, eof, Sane, ok}
use air_sane.Sane.Session.{Session, start, is_good, read_loop}
use air_sane.ScanJob.{Job}

abbrev pub is_eof : SaneStatus → Bool
is_eof eof = true
is_eof _ = false

-- What is left to be read from a device: a read that reports success gives at least one byte, a
-- start that succeeds or finds the end of a page takes a sheet, and no call puts data back. SANE asks
-- backends to report at least one byte with SANE_STATUS_GOOD, and a line has at least one byte.
pub record IsFinite (sane : Sane) : Type 0 where
  pub left : sane.World → ℕ
  pub read_good :
      (n : ℕ) (w : sane.World)
      → 0 < n
      → is_good ((sane.sane_read n w).0).0 ≡ true
      → left (sane.sane_read n w).1 < left w
  pub read_keeps : (n : ℕ) (w : sane.World) → left (sane.sane_read n w).1 ≤ left w
  pub start_takes :
      (w : sane.World)
      → is_good (sane.sane_start w).0 || is_eof (sane.sane_start w).0 ≡ true
      → left (sane.sane_start w).1 < left w
  pub start_keeps : (w : sane.World) → left (sane.sane_start w).1 ≤ left w
  pub open_keeps : (w : sane.World) → left (sane.sane_open w).1 ≤ left w
  pub configure_keeps : (s : sane.Settings) (w : sane.World) → left (sane.configure s w).1 ≤ left w
  pub parameters_keep : (w : sane.World) → left (sane.sane_get_parameters w).1 ≤ left w
  pub parameters_positive : (w : sane.World) → 0 < ((sane.sane_get_parameters w).0).1.bytes_per_line

module _ (sane : Sane) (fin : IsFinite sane) where
  open sane use {World, Settings, sane_read}
  open fin use {left, read_good, read_keeps}

  pub read_loop-total :
      (fuel size : ℕ) (got : Bytes) (w : World)
      → left w < fuel
      → (r : (SaneStatus × Bytes) × World) × (read_loop sane fuel size got w ≡ ok r)
        × (left r.1 ≤ left w)
        × (is_good (r.0).0 ≡ true → length got < size → left r.1 < left w)
  unfolding read_loop
  read_loop-total zero size got w h = absurd (omega arith)
  read_loop-total (suc fuel) size got w h = elim (Bool-cases (ltb (length got) size)) [
    | inl more ↦ elim (Bool-cases (is_good ((sane_read (size - length got) w).0).0)) [
      | inl g ↦
          let w' = (sane_read (size - length got) w).1 in
          let less : left w' < left w = read_good (size - length got) w (ground arith) g in
          let (r, e, keeps, strict) =
            read_loop-total fuel size (got ++ ((sane_read (size - length got) w).0).1) w'
              (omega arith) in
          (r, rw (more, g) e, omega arith, λ _ _. omega arith)
      | inr b ↦ (
        (
          (((sane_read (size - length got) w).0).0, got ++ ((sane_read (size - length got) w).0).1),
          (sane_read (size - length got) w).1,
        ),
        rw (more, b),
        read_keeps (size - length got) w,
        λ g _. cc,
      )
    ]
    | inr full ↦ (((good, got), w), rw full, omega arith, λ _ lt. ground arith)
  ]

-- An open session whose lines are not empty.
pub record IsReady {S : Type 0} (j : Job S) : Type 0 where
  pub session : Session
  pub held : j.session ≡ some session
  pub opened : session.has_device ≡ true
  pub nonempty : 0 < session.parameters.bytes_per_line

-- An open session, whose lines are not empty if its status is good.
pub record IsHeld {S : Type 0} (status : SaneStatus) (j : Job S) : Type 0 where
  pub session : Session
  pub held : j.session ≡ some session
  pub opened : session.has_device ≡ true
  pub nonempty : is_good status ≡ true → 0 < session.parameters.bytes_per_line

pub IsReady-IsHeld : {S : Type 0} {j : Job S} (status : SaneStatus) → IsReady j → IsHeld status j
IsReady-IsHeld status r = record {
  session = r.session;
  held = r.held;
  opened = r.opened;
  nonempty = λ _. r.nonempty;
}

module _ (sane : Sane) (fin : IsFinite sane) where
  open sane use {World, Settings, sane_read}
  open fin use {
    left, read_good, read_keeps, start_takes, start_keeps, parameters_keep, parameters_positive,
  }

  pub start-total :
      (s : Session) (w : World)
      → s.has_device ≡ true
      → (s' : Session) × (w' : World) × (start sane s w ≡ ok (s', w'))
        × (s'.has_device ≡ true)
        × (is_good s'.status ≡ true → 0 < s'.parameters.bytes_per_line)
        × (left w' ≤ left w)
        × (is_good s'.status || is_eof s'.status ≡ true → left w' < left w)
  unfolding start
  start-total s w d = elim (Bool-cases (is_good (sane.sane_start w).0)) [
    | inl g ↦
        let w' = (sane.sane_start w).1 in
        let p = parameters_positive w' in
        let kept : left (sane.sane_get_parameters w').1 < left w =
          omega (arith, parameters_keep w', start_takes w (rw g)) in
        let q = (sane.sane_get_parameters w').0 in
        (
          record s { status = q.0; parameters = q.1 },
          (sane.sane_get_parameters w').1,
          rw (d, g),
          d,
          λ _. p,
          omega arith,
          λ _. kept,
        )
    | inr b ↦ (
      record s { status = (sane.sane_start w).0 },
      (sane.sane_start w).1,
      rw (d, b),
      d,
      λ good_start. cc,
      start_keeps w,
      λ t. start_takes w t,
    )
  ]
