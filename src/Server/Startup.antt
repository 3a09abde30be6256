-- ===== src/Server/Startup.antt =====
-- `Server::run` of server/server.cpp up to the start of the HTTP server: which of the devices become
-- scanners of the server, under which names and addresses; with `matchIgnorelist` and
-- `buildMdnsService`. Regular expressions, the initialisation of a scanner and the publication over
-- mDNS are the parameter `Platform`.
pub mod Unique
pub mod Addresses
use air_sane.Prelude.{
  ℕ, suc, ◌+◌, ◌&&◌, ◌||◌, Bool, true, false, not, List, [], ◌∷◌, ◌++◌, map, Option, none, some,
  null, drop, ◌==◌, if◌then◌else◌,
}
use air_sane.Text.{Bytes, codes, starts_with}
use air_sane.Sane.{Run, ok, ◌>>=◌}
use air_sane.Uuid.{print, init_from_string}
use air_sane.Scanner.FreeNames.{choose_unique_published_name}
use air_sane.Scanner.Init.{DeviceInfo, Identity, init_identity}
use air_sane.Server.CommandLine.{Config}

-- A `ScannerEntry`: what the server has set of the scanner.
pub record Entry : Type 0 where
  pub identity : Identity
  pub published_name : Bytes
  pub uri : Bytes
  pub admin_url : Bytes
  pub icon_url : Bytes

-- What a scanner answers about itself when it is published.
pub record Abilities : Type 0 where
  pub document_formats : List Bytes
  pub txt_color_spaces : List Bytes
  pub note : Bytes
  pub icon_file : Bytes
  pub has_platen : Bool
  pub has_adf : Bool
  pub has_duplex_adf : Bool

abbrev pub TxtRecord : Type 0
TxtRecord = List (Bytes × Bytes)

-- `initialise` is `initWithOptions`, and gives nothing if it fails. `announce` gives the name under
-- which a service is known, or nothing if it could not be announced. `show` prints a number.
-- `hash` is std::hash, as bytes, and `machine_id` the line of /etc/machine-id.
pub record Platform : Type 1 where
  pub World : Type 0
  pub regex_match : Bytes → Bytes → Bool
  pub show : ℕ → Bytes
  pub hash : Bytes → Bytes
  pub machine_id : Bytes
  pub initialise : DeviceInfo → World → Option Abilities × World
  pub announce : Bytes → Bytes → TxtRecord → World → Option Bytes × World

-- The lines behind which a device name is matched.
abbrev pub is_pattern : Bytes → Bool
is_pattern line =
    not (starts_with line (codes "#"))
    && not (starts_with line (codes "//"))
    && not (starts_with line (codes " "))

unfoldable pub match_ignorelist : (Bytes → Bytes → Bool) → List Bytes → Bytes → Bool
unfolding starts_with
match_ignorelist regex_match [] name = false
match_ignorelist regex_match (line ∷ lines) name =
    if is_pattern line && regex_match name line
    then true
    else match_ignorelist regex_match lines name

-- `"," + x` for each of a list, without the first comma.
abbrev pub with_commas : List Bytes → Bytes
with_commas [] = []
with_commas (x ∷ xs) = (b',' ∷ x) ++ with_commas xs

-- A record that is set if the text is not empty.
abbrev pub listed : Bytes → Bytes → TxtRecord
listed key text = if null text then [] else (key, drop 1 text) ∷ []

abbrev pub given : Bytes → Bytes → TxtRecord
given key text = if null text then [] else (key, text) ∷ []

abbrev pub without_root : Bytes → Bytes
without_root uri = if starts_with uri (codes "/") then drop 1 uri else uri

-- The type of the service and its records.
unfoldable pub build_mdns_service : Config → Entry → Abilities → Bytes × TxtRecord
unfolding starts_with
build_mdns_service config e can = (
  if config.announce_secure then codes "_uscans._tcp" else codes "_uscan._tcp",
  (codes "txtvers", codes "1")
      ∷ (codes "vers", codes "2.0")
      ∷ (listed (codes "pdl") (with_commas can.document_formats)
          ++ ((codes "ty", e.identity.make_and_model)
              ∷ (codes "note", if null can.note then config.hostname else can.note)
              ∷ (codes "uuid", e.identity.uuid)
              ∷ (codes "rs", without_root e.uri)
              ∷ (listed (codes "cs") (with_commas can.txt_color_spaces)
                  ++ (listed (codes "is") (
                        (if can.has_platen then codes ",platen" else [])
                        ++ (if can.has_adf then codes ",adf" else []))
                      ++ ((codes "duplex", if can.has_duplex_adf then codes "T" else codes "F")
                          ∷ (given (codes "adminurl") e.admin_url
                              ++ given (codes "representation") e.icon_url)))))),
)

-- What the addresses of the scanners begin with. `random` is a uuid.
abbrev pub path_prefix : Config → Bytes → Bytes
path_prefix config random = codes "/" ++ (if config.random_paths then random ++ codes "/" else [])

module _ (platform : Platform) where
  open platform use {World, regex_match, show, hash, machine_id, initialise, announce}

  -- `Uuid(name).toString()`.
  unfoldable pub uuid_of : Bytes → Bytes
  uuid_of name = print (init_from_string hash machine_id name)

  -- The scanners of the server, and how many devices could be initialised.
  pub record Found : Type 0 where
    pub scanner_count : ℕ
    pub entries : List Entry

  abbrev pub stable_names : List Entry → List Bytes
  stable_names = map (λ e. e.identity.stable_unique_name)

  abbrev pub published_names : List Entry → List Bytes
  published_names = map (λ e. e.published_name)

  abbrev pub server_url : Config → Bytes → Bytes
  server_url config uri =
      codes "http"
      ++ ((if config.announce_secure then codes "s" else [])
          ++ (codes "://"
              ++ (config.hostname ++ (b':' ∷ show config.port ++ (config.base_path ++ uri)))))

  -- The addresses of a scanner that could be initialised.
  unfoldable pub new_entry : Config → Bytes → ℕ → Identity → Bytes → Abilities → Entry
  new_entry config prefix count identity name can =
      let uri =
        if count == 0 && config.compatible_path then codes "/eSCL" else prefix ++ identity.uuid in
      let url = server_url config uri in
      record {
        identity = identity;
        published_name = name;
        uri = uri;
        admin_url = if config.web_interface then url else [];
        icon_url = if null can.icon_file then [] else url ++ codes "/ScannerIcon";
      }

  -- A scanner that has been announced is kept, under the name that it was announced with.
  abbrev pub keep : Entry → Option Bytes → List Entry → List Entry
  keep e none entries = entries
  keep e (some name) entries = entries ++ record e { published_name = name } ∷ []

  unfoldable pub publish : Config → Entry → Abilities → List Entry → World → List Entry × World
  unfolding build_mdns_service
  publish config e can entries w =
      if config.announce
      then (let (type, records) = build_mdns_service config e can in
          let (answer, w') = announce e.published_name type records w in
          (keep e answer entries, w'))
      else (entries, w)

  -- What is done for a scanner that could be initialised, or could not.
  unfoldable pub take_answer :
      Config → Bytes → Identity → Bytes → Found → Option Abilities → World → Found × World
  unfolding new_entry publish
  take_answer config prefix identity name found none w = (found, w)
  take_answer config prefix identity name found (some can) w =
      let e = new_entry config prefix found.scanner_count identity name can in
      let (entries, w') = publish config e can found.entries w in
      (record { scanner_count = found.scanner_count + 1; entries = entries }, w')

  -- A device that is not ignored and has its names.
  unfoldable pub take_device :
      Config → Bytes → DeviceInfo → Identity → Bytes → Found → World → Found × World
  unfolding take_answer
  take_device config prefix info identity name found w =
      let (answer, w') = initialise info w in
      take_answer config prefix identity name found answer w'

  -- One device. The scanners that are not kept are destroyed, and so are their stable names.
  unfoldable pub register_device :
      ℕ → Config → Bytes → List Bytes → DeviceInfo → Found × World → Run (Found × World)
  unfolding match_ignorelist init_identity choose_unique_published_name take_device
  register_device fuel config prefix ignored info (found, w) =
      if match_ignorelist regex_match ignored info.name then ok (found, w) else (do
        identity ← init_identity show uuid_of fuel (stable_names found.entries) info
        name ←
            choose_unique_published_name show fuel identity.published_name
              (published_names found.entries)
        ok (take_device config prefix info identity name found w))

  unfoldable pub register_devices :
      ℕ → Config → Bytes → List Bytes → List DeviceInfo → Found × World → Run (Found × World)
  unfolding register_device
  register_devices fuel config prefix ignored [] st = ok st
  register_devices fuel config prefix ignored (info ∷ infos) st =
      register_device fuel config prefix ignored info st
      >>= register_devices fuel config prefix ignored infos

  -- From the list of devices to the scanners.
  unfoldable pub find_scanners :
      ℕ → Config → Bytes → List Bytes → List DeviceInfo → World → Run (Found × World)
  unfolding register_devices
  find_scanners fuel config random ignored infos w =
      register_devices fuel config (path_prefix config random) ignored infos
        (record { scanner_count = 0; entries = [] }, w)
