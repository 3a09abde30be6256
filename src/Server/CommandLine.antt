-- ===== src/Server/CommandLine.antt =====
-- The constructor of server/server.cpp: the options of the command line and what they are checked for.
-- The host's names and the reading of numbers from a stream are the parameter `Environment`. The
-- defaults are those of the build for Linux. The help text and the log are left out.
pub mod Arguments
use air_sane.Prelude.{
  ℕ, ◌+◌, ◌&&◌, ◌||◌, Bool, true, false, not, List, [], ◌∷◌, ◌++◌, Option, none, some, null, drop,
  ltb, if◌then◌else◌,
}
use air_sane.Prelude.Int.{ℤ, pos, negsuc}
use air_sane.Text.{Bytes, codes, equal, starts_with, find_byte}
use air_sane.Url.{Url, parse}

-- The options with their values.
abbrev pub Table : Type 0
Table = List (Bytes × Bytes)

abbrev pub defaults : Table
defaults =
    (codes "listen-port", codes "8090")
    ∷ (codes "interface", [])
    ∷ (codes "unix-socket", [])
    ∷ (codes "access-log", [])
    ∷ (codes "hotplug", codes "true")
    ∷ (codes "reload-delay", codes "1")
    ∷ (codes "network-hotplug", codes "true")
    ∷ (codes "mdns-announce", codes "true")
    ∷ (codes "announce-secure", codes "false")
    ∷ (codes "announce-base-url", [])
    ∷ (codes "web-interface", codes "true")
    ∷ (codes "reset-option", codes "false")
    ∷ (codes "disclose-version", codes "true")
    ∷ (codes "random-paths", codes "false")
    ∷ (codes "compatible-path", codes "true")
    ∷ (codes "local-scanners-only", codes "false")
    ∷ (codes "job-timeout", codes "120")
    ∷ (codes "purge-interval", codes "5")
    ∷ (codes "options-file", codes "/etc/airsane/options.conf")
    ∷ (codes "ignore-list", codes "/etc/airsane/ignore.conf")
    ∷ (codes "access-file", codes "/etc/airsane/access.conf")
    ∷ (codes "debug", codes "false")
    ∷ []

-- What an argument is: an option that it sets, in the table that it leaves, an option without a
-- value, or no option.
pub data Match : Type 0 where
  assigned : Table → Match
  missing_value unknown_option : Match

abbrev pub beside : Bytes × Bytes → Match → Match
beside option (assigned table) = assigned (option ∷ table)
beside option missing_value = missing_value
beside option unknown_option = unknown_option

abbrev pub assignment : Bytes → Bytes
assignment name = codes "--" ++ (name ++ b'=' ∷ [])

-- `option.substr(option.find('=') + 1)`, where npos + 1 is 0.
unfoldable pub value_of : Bytes → Bytes
unfolding find_byte
value_of arg = elim (find_byte b'=' arg) [ none ↦ arg | some n ↦ drop (n + 1) arg ]

-- The loop over the options for one argument.
unfoldable pub match_option : Bytes → Table → Match
unfolding starts_with equal value_of
match_option arg [] = unknown_option
match_option arg ((name, value) ∷ table) =
    if starts_with arg (assignment name)
    then assigned ((name, value_of arg) ∷ table)
    else if equal arg (codes "--" ++ name)
    then missing_value
    else beside (name, value) (match_option arg table)

-- The loop over the arguments: the values, and whether the help is asked for.
unfoldable pub read_arguments : List Bytes → Table → Bool → Table × Bool
unfolding match_option
read_arguments [] table help = (table, help)
read_arguments (arg ∷ args) table help = elim (match_option arg table) [
  | assigned table' ↦ read_arguments args table' help
  | _ ↦ read_arguments args table true
]

unfoldable pub lookup : Bytes → Table → Option Bytes
unfolding equal
lookup name [] = none
lookup name ((n, value) ∷ table) = if equal n name then some value else lookup name table

pub record Environment : Type 0 where
  pub hostname : Bytes
  pub published_hostname : Bytes
  pub published_hostname_fqdn : Bytes
  pub read_uint16 : Bytes → Option ℕ
  pub read_int : Bytes → Option ℤ

pub record Config : Type 0 where
  pub hotplug : Bool
  pub network_hotplug : Bool
  pub announce : Bool
  pub announce_secure : Bool
  pub web_interface : Bool
  pub reset_option : Bool
  pub random_paths : Bool
  pub compatible_path : Bool
  pub disclose_version : Bool
  pub local_only : Bool
  pub options_file : Bytes
  pub access_file : Bytes
  pub ignore_list : Bytes
  pub hostname : Bytes
  pub base_path : Bytes
  pub port : ℕ
  pub reload_delay : ℤ
  pub job_timeout : ℤ
  pub purge_interval : ℤ
  pub do_run : Bool

abbrev pub value_in : Table → Bytes → Bytes
value_in table name = elim (lookup name table) [ none ↦ [] | some value ↦ value ]

abbrev pub is_true : Table → Bytes → Bool
is_true table name = equal (value_in table name) (codes "true")

-- A number that is not read leaves 0 behind.
abbrev pub or_zero : Option ℤ → ℤ
or_zero none = pos 0
or_zero (some n) = n

-- Whether a number could be read and is not below a limit.
abbrev pub is_from : ℕ → Option ℤ → Bool
is_from limit none = false
is_from limit (some (pos n)) = not (ltb n limit)
is_from limit (some (negsuc n)) = false

-- A path without the slash at its end.
unfoldable pub without_slash : Bytes → Bytes
unfolding equal
without_slash [] = []
without_slash (c ∷ s) =
    let rest = without_slash s in if equal (c ∷ s) (b'/' ∷ []) then [] else c ∷ rest

-- "%h" and "%H" stand for names that the publisher knows.
abbrev pub resolve_host : Environment → Bytes → Bytes
resolve_host env host =
    let name = if null host then env.hostname else host in
    if equal name (codes "%h")
    then env.published_hostname
    else if equal name (codes "%H")
    then env.published_hostname_fqdn
    else name

abbrev pub port_text : Url → Bytes → Bytes
port_text url port =
    if not (equal url.port (codes "%p")) && not (null url.port) then url.port else port

abbrev pub is_read : Option ℕ → Bool
is_read none = false
is_read (some n) = true

abbrev pub port_of : Option ℕ → ℕ
port_of none = 0
port_of (some n) = n

-- What the constructor makes of the values.
unfoldable pub configure : Environment → Table → Bool → Config
unfolding lookup without_slash
configure env table help =
    let url = parse (value_in table (codes "announce-base-url")) in
    let http = equal url.protocol (codes "http") in
    let https = equal url.protocol (codes "https") in
    let port = env.read_uint16 (port_text url (value_in table (codes "listen-port"))) in
    let delay = env.read_int (value_in table (codes "reload-delay")) in
    let timeout = env.read_int (value_in table (codes "job-timeout")) in
    let interval = env.read_int (value_in table (codes "purge-interval")) in
    record {
      hotplug = is_true table (codes "hotplug");
      network_hotplug = is_true table (codes "network-hotplug");
      announce = is_true table (codes "mdns-announce");
      announce_secure =
          if http then false else if https then true else is_true table (codes "announce-secure");
      web_interface = is_true table (codes "web-interface");
      reset_option = is_true table (codes "reset-option");
      random_paths = is_true table (codes "random-paths");
      compatible_path = is_true table (codes "compatible-path");
      disclose_version = is_true table (codes "disclose-version");
      local_only = is_true table (codes "local-scanners-only");
      options_file = value_in table (codes "options-file");
      access_file = value_in table (codes "access-file");
      ignore_list = value_in table (codes "ignore-list");
      hostname = resolve_host env url.host;
      base_path = without_slash url.path;
      port = port_of port;
      reload_delay = or_zero delay;
      job_timeout = or_zero timeout;
      purge_interval = or_zero interval;
      do_run =
          (http || https || null url.protocol)
          && null url.user
          && null url.password
          && is_read port
          && is_from 0 delay
          && is_from 1 timeout
          && is_from 1 interval
          && not help;
    }

-- The constructor, for the arguments behind the name of the program.
unfoldable pub new_server : Environment → List Bytes → Config
unfolding read_arguments configure
new_server env args =
    let (table, help) = read_arguments args defaults false in configure env table help
