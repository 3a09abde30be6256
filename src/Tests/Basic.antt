-- ===== src/Tests/Basic.antt =====
-- Dictionaries and urls: basic/dictionary.cpp and basic/url.cpp.
use air_sane.Prelude.{◌≡◌, refl, [], ◌∷◌, inr, arith}
use air_sane.Text.{Bytes, codes, equal}
use air_sane.Dictionary.{Storage, find, assign}
use air_sane.Dictionary.Laws.{IsDistinct}
use air_sane.Url.{Url, parse, print}
use air_sane.Url.RoundTrip.{IsPlain, parse-print}

abbrev source_key : Bytes
source_key = codes "source"

abbrev mode_key : Bytes
mode_key = codes "mode"

abbrev options : Storage
options = (source_key, codes "Flatbed") ∷ (mode_key, codes "Color") ∷ []

options-IsDistinct : IsDistinct options
unfolding find
options-IsDistinct = (refl, (refl, tt))

assign-options :
    assign options source_key (codes "ADF")
    ≡ (source_key, codes "ADF") ∷ (mode_key, codes "Color") ∷ []
unfolding assign find equal
assign-options = refl

abbrev scanner_url : Url
scanner_url = record {
  protocol = codes "http";
  user = codes "me";
  password = codes "pw";
  host = codes "host";
  port = codes "8090";
  path = codes "/eSCL";
}

scanner_url-IsPlain : IsPlain scanner_url
scanner_url-IsPlain = record {
  protocol_given = λ e. cc;
  protocol_colon = ground arith;
  user_colon = ground arith;
  user_at = ground arith;
  password_at = ground arith;
  password_needs_user = λ e. cc;
  host_colon = ground arith;
  host_slash = ground arith;
  host_at = ground arith;
  port_slash = ground arith;
  port_at = ground arith;
  path_at = ground arith;
  path_slash = inr (codes "eSCL", refl);
}

print-scanner_url : print scanner_url ≡ codes "http://me:pw@host:8090/eSCL"
unfolding print
print-scanner_url = refl

parse-print_example : parse (print scanner_url) ≡ scanner_url
parse-print_example = parse-print scanner_url scanner_url-IsPlain
