-- ===== src/ScanJob.antt =====
-- server/scanjob.cpp and server/scanjob.h: the state of a job, its names on the wire, and the
-- tests on its state. The child Status has `updateStatus` and the session, Transfer has the transfer
-- of a document, Pixels what is done to a line, and the others prove.
-- One thread at a time works on a job here: `cancel` stands between two operations.
pub mod Status
pub mod Pixels
pub mod Transfer
pub mod Sessions
pub mod Setup
pub mod Buffers
pub mod Begin
pub mod Reading
pub mod Ending
pub mod Beginning
pub mod Lines
pub mod Images
pub mod Finish
pub mod Stuck
use air_sane.Prelude.{ℕ, Bool, true, false, List, Option}
use air_sane.Text.{Bytes, codes}
use air_sane.Sane.{SaneStatus, Sane}
use air_sane.Sane.Session.{Session}

pub data State : Type 0 where
  aborted canceled completed pending processing : State

pub data Kind : Type 0 where
  single adf_single adf_concat : Kind

-- The PWG_ constants.
pub data Reason : Type 0 where
  none_given resources_are_not_ready job_queued job_scanning job_completed_successfully : Reason
  job_canceled_by_user invalid_scan_ticket unsupported_document_format : Reason
  document_permission_error errors_detected : Reason

unfoldable pub reason_string : Reason → Bytes
reason_string none_given = codes "None"
reason_string resources_are_not_ready = codes "ResourcesAreNotReady"
reason_string job_queued = codes "JobQueued"
reason_string job_scanning = codes "JobScanning"
reason_string job_completed_successfully = codes "JobCompletedSuccessfully"
reason_string job_canceled_by_user = codes "JobCanceledByUser"
reason_string invalid_scan_ticket = codes "InvalidScanTicket"
reason_string unsupported_document_format = codes "UnsupportedDocumentFormat"
reason_string document_permission_error = codes "DocumentPermissionError"
reason_string errors_detected = codes "ErrorsDetected"

unfoldable pub status_string : State → Bytes
status_string aborted = codes "Aborted"
status_string canceled = codes "Canceled"
status_string completed = codes "Completed"
status_string pending = codes "Pending"
status_string processing = codes "Processing"

unfoldable pub kind_string : Kind → Bytes
kind_string single = codes "single"
kind_string adf_concat = codes "ADF concat"
kind_string adf_single = codes "ADF single"

abbrev pub is_processing : State → Bool
is_processing processing = true
is_processing _ = false

abbrev pub is_pending : State → Bool
is_pending pending = true
is_pending _ = false

abbrev pub is_aborted : State → Bool
is_aborted aborted = true
is_aborted _ = false

abbrev pub is_finished : State → Bool
is_finished pending = false
is_finished processing = false
is_finished aborted = true
is_finished canceled = true
is_finished completed = true

-- The members of `ScanJob::Private` that the transfer reads or writes. `settings` stands for the
-- scan source, mode, resolution and area that `openSession` writes to the options of the device.
pub record Job (Settings : Type 0) : Type 0 where
  pub uuid : Bytes
  pub created : ℕ
  pub last_active : ℕ
  pub state : State
  pub reason : Reason
  pub adf_status : SaneStatus
  pub document_format : Bytes
  pub bit_depth : ℕ
  pub res_dpi : ℕ
  pub color_scan : Bool
  pub kind : Kind
  pub images_completed : ℕ
  pub session : Option Session
  pub synthesize_gray : Bool
  pub gamma_table : List ℕ
  pub settings : Settings
