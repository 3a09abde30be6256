-- ===== src/Scanner/Capabilities.antt =====
-- The capabilities document of server/scanner.cpp, and how a job reads the color modes that it
-- names (server/scanjob.cpp). `D` is the type of doubles.
pub mod ColorModes
use air_sane.Prelude.{
  ℕ, zero, suc, ◌+◌, ◌-◌, ◌*◌, ◌/◌, if◌then◌else◌, List, [], ◌∷◌, ◌++◌, Option, none, some, null,
}
use air_sane.Text.{Bytes, codes, equal}
use air_sane.Scanner.Status.{xml_escape}

-- What the stream makes of numbers.
pub record Output (D : Type 0) : Type 0 where
  pub show : ℕ → Bytes
  pub show_double : D → Bytes

pub record InputSource (D : Type 0) : Type 0 where
  pub supported_intents : List Bytes
  pub min_width : D
  pub max_width : D
  pub min_height : D
  pub max_height : D
  pub max_physical_width : D
  pub max_physical_height : D
  pub max_bits : ℕ

pub record Capabilities (D : Type 0) : Type 0 where
  pub make_and_model : Bytes
  pub uuid : Bytes
  pub admin_url : Bytes
  pub icon_url : Bytes
  pub min_res_dpi : ℕ
  pub max_res_dpi : ℕ
  pub res_step_dpi : ℕ
  pub discrete_resolutions : List D
  pub document_formats : List Bytes
  pub txt_color_spaces : List Bytes
  pub platen : Option (InputSource D)
  pub adf_simplex : Option (InputSource D)
  pub adf_duplex : Option (InputSource D)

module _ {D : Type 0} (output : Output D) where
  open output use {show, show_double}

  unfoldable pub color_mode : Bytes → ℕ → Bytes
  color_mode color_space bit_depth =
      if equal color_space (codes "grayscale")
      then codes "Grayscale" ++ show bit_depth
      else if equal color_space (codes "color")
      then codes "RGB" ++ show (3 * bit_depth)
      else []

  -- The modes of `n` depths from `i` bits on, eight bits apart.
  unfoldable pub color_modes : Bytes → ℕ → ℕ → Bytes
  unfolding color_mode
  color_modes color_space i zero = []
  color_modes color_space i (suc n) =
      codes "<scan:ColorMode>"
      ++ color_mode color_space i
      ++ codes "</scan:ColorMode>\r\n"
      ++ color_modes color_space (i + 8) n

  -- The loop `for (i = 8; i <= bits; i += 8)` has bits / 8 rounds.
  unfoldable pub all_color_modes : List Bytes → ℕ → Bytes
  unfolding color_modes
  all_color_modes [] bits = []
  all_color_modes (space ∷ spaces) bits =
      color_modes space 8 (bits / 8) ++ all_color_modes spaces bits

  -- One element for each of a list.
  abbrev pub elements : {A : Type 0} → (A → Bytes) → List A → Bytes
  elements f [] = []
  elements f (x ∷ xs) = f x ++ elements f xs

  abbrev pub range_text : Capabilities D → Bytes
  range_text s =
      codes "<scan:Min>"
      ++ show s.min_res_dpi
      ++ codes "</scan:Min>\r\n<scan:Max>"
      ++ show s.max_res_dpi
      ++ codes "</scan:Max>\r\n<scan:Step>"
      ++ show s.res_step_dpi
      ++ codes "</scan:Step>\r\n"

  unfoldable pub resolutions : Capabilities D → Bytes
  resolutions s =
      if null s.discrete_resolutions
      then codes "<scan:ResolutionRange />\r\n<scan:XResolutionRange>\r\n"
        ++ range_text s
        ++ codes "</scan:XResolutionRange>\r\n<scan:YResolutionRange>\r\n"
        ++ range_text s
        ++ codes "</scan:YResolutionRange>\r\n"
      else codes "<scan:DiscreteResolutions>\r\n"
        ++ elements
            (λ res.
              codes "<scan:DiscreteResolution>\r\n<scan:XResolution>"
              ++ show_double res
              ++ codes "</scan:XResolution>\r\n<scan:YResolution>"
              ++ show_double res
              ++ codes "</scan:YResolution>\r\n</scan:DiscreteResolution>\r\n")
            s.discrete_resolutions
        ++ codes "</scan:DiscreteResolutions>\r\n"

  -- The text of a profile and the number of the next one.
  unfoldable pub write_setting_profile : Capabilities D → ℕ → ℕ → Bytes × ℕ
  unfolding all_color_modes resolutions
  write_setting_profile s bits profile = (
    codes "<scan:SettingProfile name='"
        ++ show profile
        ++ codes "'>\r\n<scan:ColorModes>\r\n"
        ++ all_color_modes s.txt_color_spaces bits
        ++ codes "</scan:ColorModes>\r\n<scan:ColorSpaces>\r\n"
        ++ codes "<scan:ColorSpace>RGB</scan:ColorSpace>\r\n"
        ++ codes "</scan:ColorSpaces>\r\n<scan:SupportedResolutions>\r\n"
        ++ resolutions s
        ++ codes "</scan:SupportedResolutions>\r\n<scan:DocumentFormats>\r\n"
        ++ elements
            (λ format. codes "<pwg:DocumentFormat>" ++ format ++ codes "</pwg:DocumentFormat>\r\n")
            s.document_formats
        ++ codes "</scan:DocumentFormats>\r\n</scan:SettingProfile>\r\n",
    profile + 1,
  )

  unfoldable pub write_input_source : Capabilities D → InputSource D → ℕ → Bytes × ℕ
  unfolding write_setting_profile
  write_input_source s source profile =
      let (text, next) = write_setting_profile s source.max_bits profile in
      (
        codes "<scan:MinWidth>"
            ++ show_double source.min_width
            ++ codes "</scan:MinWidth>\r\n<scan:MinHeight>"
            ++ show_double source.min_height
            ++ codes "</scan:MinHeight>\r\n<scan:MaxWidth>"
            ++ show_double source.max_width
            ++ codes "</scan:MaxWidth>\r\n<scan:MaxHeight>"
            ++ show_double source.max_height
            ++ codes "</scan:MaxHeight>\r\n<scan:MaxPhysicalWidth>"
            ++ show_double source.max_physical_width
            ++ codes "</scan:MaxPhysicalWidth>\r\n<scan:MaxPhysicalHeight>"
            ++ show_double source.max_physical_height
            ++ codes "</scan:MaxPhysicalHeight>\r\n<scan:MaxScanRegions>1</scan:MaxScanRegions>\r\n"
            ++ codes "<scan:SettingProfiles>\r\n"
            ++ text
            ++ codes "</scan:SettingProfiles>\r\n<scan:SupportedIntents>\r\n"
            ++ elements
                (λ intent.
                  codes "<scan:SupportedIntent>" ++ intent ++ codes "</scan:SupportedIntent>\r\n")
                source.supported_intents
            ++ codes "</scan:SupportedIntents>\r\n",
        next,
      )

  -- The part of a source, if the scanner has it, between two tags.
  unfoldable pub write_source :
      Bytes → Bytes → Capabilities D → Option (InputSource D) → ℕ → Bytes × ℕ
  unfolding write_input_source
  write_source before behind s none profile = ([], profile)
  write_source before behind s (some source) profile =
      let (text, next) = write_input_source s source profile in (before ++ text ++ behind, next)

  unfoldable pub write_adf : Capabilities D → ℕ → Bytes
  unfolding write_source
  write_adf s profile =
      let (simplex, next) =
        write_source (codes "<scan:Adf>\r\n<scan:AdfSimplexInputCaps>\r\n")
          (codes "</scan:AdfSimplexInputCaps>\r\n") s s.adf_simplex profile in
      let duplex =
        (write_source (codes "<scan:AdfDuplexInputCaps>\r\n")
          (codes "</scan:AdfDuplexInputCaps>\r\n") s s.adf_duplex next).0 in
      if null simplex
      then []
      else simplex
        ++ duplex
        ++ codes "<scan:AdfOptions>\r\n<scan:AdfOption>DetectPaperLoaded</scan:AdfOption>\r\n"
        ++ (if null duplex then [] else codes "<scan:AdfOption>Duplex</scan:AdfOption>\r\n")
        ++ codes "</scan:AdfOptions>\r\n</scan:Adf>\r\n"

  -- The text of an optional element.
  abbrev pub optional : Bytes → Bytes → Bytes → Bytes
  optional before behind text = if null text then [] else before ++ text ++ behind

  unfoldable pub write_capabilities : Capabilities D → Bytes
  unfolding write_source write_adf
  write_capabilities s =
      let (flatbed, next) =
        write_source (codes "<scan:Platen>\r\n<scan:PlatenInputCaps>\r\n")
          (codes "</scan:PlatenInputCaps>\r\n</scan:Platen>\r\n") s s.platen 0 in
      codes "<?xml version='1.0' encoding='UTF-8'?>\r\n"
      ++ codes "<scan:ScannerCapabilities xmlns:pwg='http://www.pwg.org/schemas/2010/12/sm'"
      ++ codes " xmlns:scan='http://schemas.hp.com/imaging/escl/2011/05/03'>\r\n"
      ++ codes "<pwg:Version>2.0</pwg:Version>\r\n<pwg:MakeAndModel>"
      ++ xml_escape s.make_and_model
      ++ codes "</pwg:MakeAndModel>\r\n"
      ++ codes "<pwg:SerialNumber>1.0</pwg:SerialNumber>\r\n<scan:UUID>"
      ++ s.uuid
      ++ codes "</scan:UUID>\r\n"
      ++ optional (codes "<scan:AdminURI>") (codes "</scan:AdminURI>\r\n") s.admin_url
      ++ optional (codes "<scan:IconURI>") (codes "</scan:IconURI>\r\n") s.icon_url
      ++ flatbed
      ++ write_adf s next
      ++ codes "</scan:ScannerCapabilities>\r\n"
