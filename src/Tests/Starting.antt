-- ===== src/Tests/Starting.antt =====
-- Witnesses and tests for the start of the server: its command line, and the scanners that it finds.
use air_sane.Prelude.{
  ℕ, zero, suc, ◌≡◌, refl, true, false, List, [], ◌∷◌, some, arith, All, length, ◌%◌,
}
use air_sane.Prelude.Int.{pos}
use air_sane.Text.{Bytes, codes, equal}
use air_sane.Sane.{ok}
use air_sane.Url.{parse}
use air_sane.Scanner.FreeNames.Choosing.{IsPrinter}
use air_sane.Scanner.Init.{DeviceInfo}
use air_sane.Server.CommandLine.{defaults, read_arguments, lookup, Environment, Config, new_server}
use air_sane.Server.CommandLine.Arguments.{chosen, read_arguments-chosen}
use air_sane.Server.Startup.{Abilities, Platform, Found, stable_names, path_prefix, find_scanners}
use air_sane.Server.Startup.Unique.{IsUnique}
use air_sane.Server.Startup.Addresses.{AreApart, IsPlaced, find_scanners-IsAddressed}

abbrev arguments : List Bytes
arguments =
    codes "--listen-port=80"
    ∷ codes "--debug"
    ∷ codes "--mdns-announce=false"
    ∷ codes "--listen-port=8091=x"
    ∷ []

read_arguments-chosen_example :
    lookup (codes "listen-port") (read_arguments arguments defaults false).0
    ≡ some (chosen (codes "listen-port") (codes "8090") arguments)
unfolding lookup
read_arguments-chosen_example =
    read_arguments-chosen arguments (codes "listen-port") (ground arith) defaults false
      (codes "8090") (ground arith) refl

port_is_chosen :
    lookup (codes "listen-port") (read_arguments arguments defaults false).0 ≡ some (codes "8091=x")
unfolding lookup read_arguments
port_is_chosen = refl

-- A stream that reads every number as 3.
abbrev host : Environment
host = record {
  hostname = codes "attic";
  published_hostname = codes "attic.local";
  published_hostname_fqdn = codes "attic.home";
  read_uint16 = λ s. some 8090;
  read_int = λ s. some (pos 3);
}

-- A timeout that is not longer than the purge interval is accepted.
timeout_is_not_checked : (new_server host []).do_run ≡ true
unfolding new_server parse
timeout_is_not_checked = refl

-- What follows a prefix in strokes.
abbrev strokes : ℕ → Bytes
strokes zero = []
strokes (suc n) = b'i' ∷ strokes n

strokes-IsPrinter : IsPrinter strokes
unfolding equal
strokes-IsPrinter zero zero h = absurd (omega arith)
strokes-IsPrinter zero (suc k) h = refl
strokes-IsPrinter (suc j) zero h = absurd (omega arith)
strokes-IsPrinter (suc j) (suc k) h = strokes-IsPrinter j k (omega arith)

abbrev abilities : Abilities
abilities = record {
  document_formats = codes "application/pdf" ∷ [];
  txt_color_spaces = codes "color" ∷ [];
  note = [];
  icon_file = [];
  has_platen = true;
  has_adf = false;
  has_duplex_adf = false;
}

-- The number of services that have been announced.
abbrev platform : Platform
platform = record {
  World = ℕ;
  regex_match = λ name line. equal name line;
  show = strokes;
  hash = λ s. 1 ∷ 2 ∷ 3 ∷ 4 ∷ 5 ∷ 6 ∷ 7 ∷ length s % 256 ∷ [];
  machine_id = codes "0f";
  initialise = λ info w. (some abilities, w);
  announce = λ name type records w. (some name, suc w);
}

abbrev devices : List DeviceInfo
devices =
    record { name = codes "net:1"; vendor = codes "A"; model = codes "B" }
    ∷ record { name = codes "test"; vendor = codes "A"; model = codes "B" }
    ∷ record { name = codes "net:2"; vendor = codes "A"; model = codes "B" }
    ∷ []

abbrev ignored : List Bytes
ignored = codes "# devices" ∷ codes "test" ∷ []

abbrev config : Config
config = new_server host []

find_scanners-IsAddressed_example :
    (r : Found platform × ℕ) × (find_scanners platform 4 config [] ignored devices 0 ≡ ok r)
    × IsUnique (stable_names platform r.0.entries)
    × AreApart r.0.entries
    × All (IsPlaced platform (path_prefix config [])) r.0.entries
    × (config.announce ≡ false → r.0.entries ≡ [])
find_scanners-IsAddressed_example =
    find_scanners-IsAddressed platform config [] ignored devices 0 4 strokes-IsPrinter (omega arith)
