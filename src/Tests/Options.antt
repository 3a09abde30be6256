-- ===== src/Tests/Options.antt =====
-- The options file: server/optionsfile.cpp.
use air_sane.Prelude.{◌≡◌, refl, List, [], ◌∷◌}
use air_sane.Text.{Bytes, codes, equal}
use air_sane.AccessFile.Parsing.{first_word, skip_space, trim_end}
use air_sane.Http.{is_space}
use air_sane.OptionsFile.{
  OptionsFile, add_option, name_and_value, push_to_last, read_options, path_of,
}

abbrev empty : OptionsFile
empty = record { file_name = codes "/etc/o"; global_options = []; device_options = [] }

abbrev lines : List Bytes
lines =
    codes "# x"
    ∷ codes " note  a b "
    ∷ codes "device d.*"
    ∷ codes "icon i.png"
    ∷ codes "mode Gray"
    ∷ []

abbrev full : OptionsFile
full = record {
  file_name = codes "/etc/o";
  global_options = (codes "note", codes "a b") ∷ [];
  device_options =
      (codes "d.*", (codes "icon", codes "i.png") ∷ (codes "mode", codes "Gray") ∷ []) ∷ [];
}

read_options-lines : read_options lines empty ≡ full
unfolding read_options skip_space name_and_value first_word trim_end is_space add_option equal
    push_to_last
read_options-lines = refl

path_of-file : path_of (codes "/etc/o") ≡ codes "/etc/"
unfolding path_of
path_of-file = refl
