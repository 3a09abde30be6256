-- ===== src/Tests/Jobs.antt =====
-- A scan job over a device with a feeder: server/scanjob.cpp.
use air_sane.Prelude.{
  Bool, ◌≤◌, ◌≡◌, ◌≢◌, refl, true, false, List, [], ◌∷◌, ◌++◌, none, some, inl, inr, arith,
}
use air_sane.Text.{codes}
use air_sane.ImageEncoder.Trace.{recorder, Event, document_begin, document_end, page_events}
use air_sane.Sane.{out_of_fuel, good, no_docs, ok, crash}
use air_sane.Sane.Session.{Session, read}
use air_sane.ScanJob.{
  Job, pending, processing, aborted, adf_single, none_given, job_scanning, resources_are_not_ready,
}
use air_sane.ScanJob.Status.{At, close_session, update_status, begin_transfer}
use air_sane.ScanJob.Sessions.{is_open, Settled, update_status-Settled}
use air_sane.ScanJob.Begin.{IsSound, begin_transfer-IsSound, begin_transfer-crash}
use air_sane.ScanJob.Beginning.{begin_transfer-ends}
use air_sane.ScanJob.Reading.{IsReady, IsReady-IsHeld}
use air_sane.ScanJob.Ending.{Goes, update_status-ends}
use air_sane.ImageEncoder.{write_line, end_document, lines_left_in_current_image}
use air_sane.ScanJob.Pixels.{apply_gamma}
use air_sane.ScanJob.Transfer.{
  Output, png, finish_transfer, encoder_for, transfer_document, begin_images, begin_at,
  compare_sizes, set_up, transfer_images, read_lines, read_line, put_line, prepare, end_image,
  close_document,
}
use air_sane.ScanJob.Finish.{finish_transfer-ends, Closes}
use air_sane.ScanJob.Stuck.{transfer_images-stuck}
use air_sane.Tests.Encoder.{two_lines}
use air_sane.Tests.Device.{Feeder, device, finite_device, left, size, stream, average}

abbrev pub waiting : Job Unit
waiting = record {
  uuid = codes "1";
  created = 0;
  last_active = 0;
  state = pending;
  reason = none_given;
  adf_status = good;
  document_format = codes "image/png";
  bit_depth = 8;
  res_dpi = 300;
  color_scan = false;
  kind = adf_single;
  images_completed = 0;
  session = none;
  synthesize_gray = false;
  gamma_table = [];
  settings = tt;
}

-- One sheet of two lines.
abbrev pub loaded : Feeder
loaded = record { present = true; sheet = []; sheets = ((1 ∷ []) ∷ (2 ∷ []) ∷ []) ∷ [] }

abbrev pub taken : Feeder
taken = record { present = true; sheet = (1 ∷ []) ∷ (2 ∷ []) ∷ []; sheets = [] }

abbrev missing : Feeder
missing = record { present = false; sheet = []; sheets = [] }

abbrev pub opened : Session
opened = record { has_device = true; status = good; parameters = size }

abbrev pub begun : Job Unit
begun = record waiting { state = processing; reason = job_scanning; session = some opened }

abbrev begun_at : At device
begun_at = (begun, taken)

abbrev waiting_at : At device
waiting_at = (waiting, loaded)

begin_transfer-waiting : begin_transfer device 1 (waiting, loaded) ≡ ok (true, (begun, taken))
unfolding begin_transfer
begin_transfer-waiting = refl

waiting-IsSound : IsSound waiting
waiting-IsSound = record {
  open_while_processing = λ e. cc;
  closed_when_finished = λ e. refl;
  open_or_none = inl refl;
}

begin_transfer-IsSound_example :
    IsSound begun
    × (true ≡ true
        → (waiting.state ≡ pending) × (begun.state ≡ processing) × (is_open begun.session ≡ true))
    × (true ≡ false → waiting.state ≡ pending → (begun.state ≢ processing) × (begun.session ≡ none))
    × (waiting.state ≢ pending → begun_at ≡ waiting_at)
begin_transfer-IsSound_example =
    begin_transfer-IsSound device 1 waiting loaded true (begun, taken) waiting-IsSound
      begin_transfer-waiting

begin_transfer-crash_example : begin_transfer device 1 (waiting, missing) ≡ crash
begin_transfer-crash_example = begin_transfer-crash device 1 waiting missing refl refl refl

begin_transfer-ends_example :
    (b : Bool) × (x : At device) × (begin_transfer device 6 waiting_at ≡ ok (b, x))
    × (b ≡ true → IsReady x.0 × (left x.1 ≤ left loaded))
begin_transfer-ends_example =
    begin_transfer-ends device finite_device 6 waiting loaded (inr (refl, refl)) (omega arith)

abbrev empty_job : Job Unit
empty_job = record waiting {
  state = aborted;
  reason = resources_are_not_ready;
  adf_status = no_docs;
}

update_status-no_docs : update_status device 1 no_docs (begun, taken) ≡ ok (empty_job, taken)
unfolding update_status close_session
update_status-no_docs = refl

update_status-Settled_example : Settled (is_open begun.session) empty_job
update_status-Settled_example =
    update_status-Settled device 1 no_docs begun taken (empty_job, taken) update_status-no_docs

begun-IsReady : IsReady begun
begun-IsReady = record { session = opened; held = refl; opened = refl; nonempty = omega arith }

update_status-ends_example :
    (x : At device) × (update_status device 1 good (begun, taken) ≡ ok x)
    × Goes device finite_device good taken x
update_status-ends_example =
    update_status-ends device finite_device 1 good begun taken (omega arith) (λ e. cc)
      (IsReady-IsHeld good begun-IsReady)

finish_transfer-begun :
    (x : At device) × (finish_transfer device stream average 9 [] (begun, taken)
      ≡ ok (document_begin ∷ (page_events ((1 ∷ []) ∷ (2 ∷ []) ∷ []) ++ document_end ∷ []), x))
    × ((x.0).images_completed ≡ 1)
unfolding finish_transfer encoder_for transfer_document begin_images begin_at compare_sizes set_up
    transfer_images read_lines read_line read put_line prepare apply_gamma write_line end_image
    update_status lines_left_in_current_image close_document end_document
finish_transfer-begun = (_, refl, refl)

pub stream-Closes : Closes device stream average finite_device
stream-Closes k e t = (_, refl)

finish_transfer-ends_example :
    (s' : List Event) × (x : At device) × (finish_transfer device stream average 9 [] (begun, taken)
      ≡ ok (s', x))
    × ((x.0).state ≢ processing)
finish_transfer-ends_example =
    finish_transfer-ends device stream average finite_device 9 [] begun taken begun-IsReady
      (omega arith) refl stream-Closes

abbrev broken : Output
broken = record { Sink = List Event; hooks = λ k. recorder; stream_ok = λ s. false; flush = λ s. s }

transfer_images-stuck_example :
    transfer_images device broken average 100 9 png ((two_lines, []), (begun, taken)) ≡ out_of_fuel
unfolding lines_left_in_current_image
transfer_images-stuck_example =
    transfer_images-stuck device broken average 100 9 png (two_lines, []) (begun, taken)
      (omega arith) refl refl refl
