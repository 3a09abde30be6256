-- ===== src/ScanJob/Setup/Choices.antt =====
-- What a job is set up for (server/scanjob.cpp).
use air_sane.Prelude.{ℕ, ◌≤◌, List, ◌≡◌, Bool, true, false, ◌||◌, if◌then◌else◌, ◌⊎◌}
use air_sane.Text.{Bytes, codes}
use air_sane.OptionsFile.{Options}
use air_sane.ScanJob.{
  aborted, pending, single, adf_single, adf_concat, job_queued, invalid_scan_ticket,
}
use air_sane.Sane.{Run, ok, crash, ◌>>=◌}
use air_sane.ScanJob.Setup.Tables.{Table}
use air_sane.ScanJob.Setup.{
  Doubles, Features, Setup, InputSource, platen, feeder, unknown_source, input_source, init_source,
  finish_init, init_region, init_color, init_format, default_intent, is_unknown,
}

module _ {D : Type 0} (f : Doubles D) (scanner : Features D) (get_string : Bytes → Bytes) where
  -- The source and the kind of a job.
  pub data IsSourced (j : Setup D) : InputSource → Type 0 where
    flatbed : j.scan_source ≡ scanner.platen_source_name → j.kind ≡ single → IsSourced j platen
    one_document :
        j.scan_source
          ≡ (if j.duplex then scanner.adf_duplex_source_name else scanner.adf_simplex_source_name)
        → j.document_format ≡ codes "application/pdf"
        → j.kind ≡ adf_concat
        → IsSourced j feeder
    each_page :
        j.scan_source
          ≡ (if j.duplex then scanner.adf_duplex_source_name else scanner.adf_simplex_source_name)
        → j.kind ≡ adf_single
        → IsSourced j feeder
    refused : j.state ≡ aborted → IsSourced j unknown_source

  -- The gamma value of the options that a job is for.
  abbrev pub gamma_of : Options D → Setup D → D
  gamma_of o j = if j.color_scan then o.color_gamma else o.gray_gamma

  -- What holds of a job that has been set up.
  pub record IsPrepared (o : Options D) (j : Setup D) : Type 0 where
    pub settled :
        ((j.state ≡ pending) × (j.reason ≡ job_queued))
        ⊎ ((j.state ≡ aborted) × (j.reason ≡ invalid_scan_ticket))
    pub table : Table f scanner get_string (gamma_of o j) j.bit_depth (ok j.gamma_table)
    pub gray :
        (j.color_scan ≡ true)
        ⊎ (j.color_mode ≡ (
            if o.synthesize_gray
            then scanner.color_scan_mode_name
            else scanner.gray_scan_mode_name))
    pub sourced : IsSourced j (input_source f scanner get_string)

  -- What becomes of a job whose color settings have been read.
  pub data IsSetUp (o : Options D) (colored : Setup D) : Run (Setup D) → Type 0 where
    prepared :
        {j : Setup D}
        → j.bit_depth ≡ colored.bit_depth
        → j.color_scan ≡ colored.color_scan
        → IsPrepared o j
        → IsSetUp o colored (ok j)
    lost :
        f.is_unit (gamma_of o colored) ≡ false
        → (colored.bit_depth ≡ 31) ⊎ (64 ≤ colored.bit_depth)
        → IsSetUp o colored crash

  -- What `apply_device_options` makes of a job that has a gamma table.
  abbrev with_table : Options D → List ℕ → Setup D → Setup D
  with_table o table j = record j {
    gamma_table = table;
    color_mode =
        if j.color_scan
        then j.color_mode
        else if o.synthesize_gray
        then scanner.color_scan_mode_name
        else scanner.gray_scan_mode_name;
  }

  -- The end of `init`, behind the choice of a source.
  abbrev ended : Bool → Options D → InputSource → List ℕ → Setup D → Setup D
  ended uneven o source table j =
      finish_init f scanner get_string (uneven || is_unknown f scanner get_string source)
        (with_table o table (init_source f scanner get_string source j))

  -- `init`, from the job whose color settings have been read and whose table has been made.
  rest_of :
      (uneven : Bool) (o : Options D) (source : InputSource) (colored : Setup D)
      → Run (List ℕ)
      → Run (Setup D)
  rest_of uneven o source colored made =
      (made >>= λ table. ok (with_table o table (init_source f scanner get_string source colored)))
      >>= λ j.
          ok (finish_init f scanner get_string (uneven || is_unknown f scanner get_string source) j)

  -- The settings of the colors, as `init` reads them.
  abbrev pub colored_by : Bool → Setup D → Setup D
  colored_by autoselect j = init_format f scanner get_string autoselect (
      init_color f scanner get_string (
        init_region f scanner get_string
          (record j { intent = default_intent f scanner get_string })))
