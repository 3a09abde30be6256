-- ===== src/Tests/Device.antt =====
-- A device that feeds given sheets, and a stream that keeps what the encoder is asked to do.
use air_sane.Prelude.{
  ℕ, ◌+◌, ◌/◌, ◌≤◌, ◌<◌, ◌≡◌, refl, arith, Bool, true, List, [], ◌∷◌, length, ◌||◌, if◌then◌else◌,
}
use air_sane.Prelude.Int.{pos}
use air_sane.Text.{Bytes}
use air_sane.ImageEncoder.Trace.{Event, recorder}
use air_sane.Sane.{SaneStatus, good, eof, no_docs, io_error, Parameters, Sane}
use air_sane.Sane.Session.{is_good}
use air_sane.ScanJob.Pixels.{Floats}
use air_sane.ScanJob.Transfer.{Output}
use air_sane.ScanJob.Reading.{IsFinite, is_eof}

-- The lines of the sheet under the lamp, and the sheets in the feeder.
pub record Feeder : Type 0 where
  pub present : Bool
  pub sheet : List Bytes
  pub sheets : List (List Bytes)

abbrev pub size : Parameters
size = record { bytes_per_line = 1; pixels_per_line = 1; lines = pos 2; depth = 8 }

abbrev pub next_sheet : Feeder → List (List Bytes) → SaneStatus × Feeder
next_sheet f [] = (no_docs, f)
next_sheet f (s ∷ ss) = (good, record f { sheet = s; sheets = ss })

abbrev pub next_line : Feeder → List Bytes → (SaneStatus × Bytes) × Feeder
next_line f [] = ((eof, []), f)
next_line f (l ∷ ls) = ((good, l), record f { sheet = ls })

abbrev pub device : Sane
device = record {
  World = Feeder;
  Settings = Unit;
  time = λ f. 0;
  sane_open = λ f. (if f.present then good else io_error, f);
  configure = λ s f. (true, f);
  sane_start = λ f. next_sheet f f.sheets;
  sane_get_parameters = λ f. ((good, size), f);
  sane_read = λ n f. next_line f f.sheet;
  sane_cancel = λ f. f;
  sane_close = λ f. f;
}

abbrev pub lines_of : List (List Bytes) → ℕ
lines_of [] = 0
lines_of (s ∷ ss) = 1 + length s + lines_of ss

abbrev pub left : Feeder → ℕ
left f = length f.sheet + lines_of f.sheets

pub next_line-good :
    (f : Feeder) (ls : List Bytes)
    → is_good ((next_line f ls).0).0 ≡ true
    → left (next_line f ls).1 < length ls + lines_of f.sheets
next_line-good f [] h = ground arith
next_line-good f (l ∷ ls) h = omega arith

pub next_line-keeps :
    (f : Feeder) (ls : List Bytes) → ls ≡ f.sheet → left (next_line f ls).1 ≤ left f
next_line-keeps f [] h = omega arith
next_line-keeps f (l ∷ ls) h = ground (arith, h)

pub next_sheet-takes :
    (f : Feeder) (ss : List (List Bytes))
    → is_good (next_sheet f ss).0 || is_eof (next_sheet f ss).0 ≡ true
    → left (next_sheet f ss).1 < length f.sheet + lines_of ss
next_sheet-takes f [] h = ground arith
next_sheet-takes f (s ∷ ss) h = omega arith

pub next_sheet-keeps :
    (f : Feeder) (ss : List (List Bytes))
    → lines_of f.sheets ≡ lines_of ss
    → left (next_sheet f ss).1 ≤ length f.sheet + lines_of ss
next_sheet-keeps f [] h = omega (arith, h)
next_sheet-keeps f (s ∷ ss) h = omega arith

abbrev pub finite_device : IsFinite device
finite_device = record {
  left = left;
  read_good = λ n f _ h. next_line-good f f.sheet h;
  read_keeps = λ n f. next_line-keeps f f.sheet refl;
  start_takes = λ f h. next_sheet-takes f f.sheets h;
  start_keeps = λ f. next_sheet-keeps f f.sheets refl;
  open_keeps = λ f. omega arith;
  configure_keeps = λ s f. omega arith;
  parameters_keep = λ f. omega arith;
  parameters_positive = λ f. omega arith;
}

abbrev pub stream : Output
stream = record { Sink = List Event; hooks = λ k. recorder; stream_ok = λ s. true; flush = λ s. s }

abbrev pub average : Floats
average = record { gray = λ bits r g b. (r + g + b) / 3; behind = λ i. 0 }
