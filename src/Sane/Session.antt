-- ===== src/Sane/Session.antt =====
-- The session: a device handle, which is null if the device could not be opened, the status of
-- the last call, and the parameters of the scan.
use air_sane.Prelude.{ℕ, zero, suc, ◌-◌, Bool, true, false, [], ◌++◌, ltb, if◌then◌else◌, length}
use air_sane.Prelude.Int.{pos}
use air_sane.Text.{Bytes}
use air_sane.Sane.{SaneStatus, good, Parameters, Sane, Run, ok, out_of_fuel, crash, ◌>>=◌}

pub record Session : Type 0 where
  pub has_device : Bool
  pub status : SaneStatus
  pub parameters : Parameters

abbrev pub no_parameters : Parameters
no_parameters = record { bytes_per_line = 0; pixels_per_line = 0; lines = pos 0; depth = 0 }

abbrev pub is_good : SaneStatus → Bool
is_good good = true
is_good _ = false

module _ (sane : Sane) where
  open sane use {
    World, sane_open, sane_start, sane_get_parameters, sane_read, sane_cancel, sane_close,
  }

  -- `open`: whether there is a handle, and the status.
  abbrev pub open_device : World → (Bool × SaneStatus) × World
  open_device w = let (status, w') = sane_open w in ((is_good status, status), w')

  -- `session(devicename)`, with `init`.
  unfoldable pub new_session : World → Session × World
  new_session w =
      let ((handle, status), w') = open_device w in
      (record { has_device = handle; status = status; parameters = no_parameters }, w')

  -- `start`. SANE leaves a start on a null handle undefined.
  unfoldable pub start : Session → World → Run (Session × World)
  start s w =
      if s.has_device
      then (let (status, w') = sane_start w in
          if is_good status
          then (let ((status', p), w'') = sane_get_parameters w' in
              ok (record s { status = status'; parameters = p }, w''))
          else ok (record s { status = status }, w'))
      else crash

  unfoldable pub cancel : Session → World → World
  cancel s w = if s.has_device then sane_cancel w else w

  -- The destructor cancels, and the last reference to the handle closes the device.
  unfoldable pub destroy : Session → World → World
  unfolding cancel
  destroy s w = if s.has_device then sane_close (cancel s w) else w

  -- The loop of `read`, for a buffer of `size` bytes of which `got` are there.
  unfoldable pub read_loop : ℕ → ℕ → Bytes → World → Run ((SaneStatus × Bytes) × World)
  read_loop zero size got w = out_of_fuel
  read_loop (suc fuel) size got w =
      let next : Run ((SaneStatus × Bytes) × World) =
        (let ((status, more), w') = sane_read (size - length got) w in
          elim (is_good status) [
            | true ↦ read_loop fuel size (got ++ more) w'
            | false ↦ ok ((status, got ++ more), w')
          ]) in
      if ltb (length got) size then next else ok ((good, got), w)

  -- The session and the bytes in the buffer.
  unfoldable pub read : ℕ → ℕ → Session → World → Run ((Session × Bytes) × World)
  unfolding read_loop
  read fuel size s w =
      if s.has_device
      then (do
        ((status, line), w') ← read_loop fuel size [] w
        ok ((record s { status = status }, line), w'))
      else crash
