-- ===== src/Scanner/Init/Ready.antt =====
-- `init2` returns, and a scanner that it has read is fit for use.
use air_sane.Prelude.{ℕ, ◌<◌, ◌≡◌, ◌⊎◌, ◌||◌, Bool, true, false, not, ◌++◌, null}
use air_sane.Text.{codes}
use air_sane.OptionSet.{Device, OptionSet}
use air_sane.OptionSet.Words.{Numbers}
use air_sane.OptionSet
use air_sane.OptionSet.Words
use air_sane.OptionSet.Ending.{IsSteady}
use air_sane.Scanner.FreeNames.{is_taken}
use air_sane.Scanner.Init.Sources.{OptionNames, Arithmetic}
use air_sane.Scanner.Init.Units.{is_some, IsTold, last_source}
use air_sane.Scanner.Init.{Readout, Outcome, failed, read}

-- What the scanner offers is consistent with the names that it has found, and something is offered.
pub record IsReady {D : Type 0} (r : Readout D) : Type 0 where
  pub some_resolution : null r.discrete_resolutions ≡ false
  pub some_mode : null r.txt_color_spaces ≡ false
  pub grayscale : is_taken (codes "grayscale") r.txt_color_spaces ≡ not (null r.modes.gray_name)
  pub color : is_taken (codes "color") r.txt_color_spaces ≡ not (null r.modes.color_name)
  pub some_source : is_some r.platen || is_some r.adf_simplex || is_some r.adf_duplex ≡ true
  pub flatbed : is_taken (codes "Platen") r.input_sources ≡ is_some r.platen
  pub feeder :
      is_taken (codes "Feeder") r.input_sources ≡ is_some r.adf_simplex || is_some r.adf_duplex

module _ (device : Device) (count fuel : ℕ) (steady : IsSteady device count) (enough : count < fuel)
    {D : Type 0} (n : Numbers D) (a : Arithmetic D) (names : OptionNames) where
  open device use {World, Pointer}

  -- How `init2` ends: with one of two errors, or with a scanner that is ready, whose error is that
  -- of the units of its last source.
  abbrev pub Initialised : Bool → Outcome D → Type 0
  Initialised opened (failed error) =
      ((opened ≡ false) × (error ≡ codes "failed to open device"))
      ⊎ ((opened ≡ true) × (error ≡ codes "missing SANE parameter: " ++ names.resolution))
  Initialised opened (read r) =
      (opened ≡ true)
      × IsReady r
      × IsTold device n a names (last_source device n a names r.platen r.adf_simplex r.adf_duplex)
          r.error
