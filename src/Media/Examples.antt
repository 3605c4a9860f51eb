-- ===== src/Media/Examples.antt =====
-- Runs of the path rules.
use undelete.Base.{◌≡◌, refl, false, none, some, [], ◌∷◌, All}
use undelete.Base.{List, map}
use undelete.Base.Int.{pos}
use undelete.Media.Catalogue.{MediaKey, Record, File, purged, save, mark_purged, update}
use undelete.Media.Lifecycle.{
  Statement, save_file, purge_file, perform, perform_all, no_files, AreSound, IsUnique,
  perform_all_sound,
}
use undelete.Media.Path.{FilePath, dot_component, contains, split_slash, validate_relative_path}
use undelete.Media.Safe.{IsPlain, join_slash, validate_relative_path-IsPlain}

-- "a/.b".
abbrev hidden : FilePath
hidden = b'a' ∷ b'/' ∷ b'.' ∷ b'b' ∷ []

parent_refused : validate_relative_path (b'a' ∷ b'/' ∷ b'.' ∷ b'.' ∷ []) ≡ some dot_component
unfolding validate_relative_path
parent_refused = refl

hidden_accepted : validate_relative_path hidden ≡ none
unfolding validate_relative_path
hidden_accepted = refl

validate_relative_path-IsPlain_example :
    (join_slash (split_slash hidden) ≡ hidden)
    × All IsPlain (split_slash hidden)
    × (contains b'\\' hidden ≡ false)
    × (contains 0 hidden ≡ false)
validate_relative_path-IsPlain_example = validate_relative_path-IsPlain hidden hidden_accepted

abbrev file_key : MediaKey
file_key = record {
  owner = pos 7;
  connection = "bc";
  chat = pos 3;
  message = pos 11;
  file_index = pos 0;
}

abbrev metadata : Record
metadata = record {
  telegram_file_id = "f";
  telegram_file_unique_id = "u";
  media_type = "photo";
  mime_type = "";
  file_name = "";
  byte_size = none;
  width = none;
  height = none;
  duration = none;
  media_group = "";
}

-- A file saved, delivered again, and purged.
abbrev purged_file : List Statement
purged_file =
    save_file 1 file_key metadata ∷ save_file 2 file_key metadata ∷ purge_file 3 (pos 7) 1 ∷ []

purged_once : map (λ (f : File). f.status) (perform_all purged_file no_files).files ≡ purged ∷ []
unfolding perform_all perform save mark_purged update
purged_once = refl

perform_all_sound_example :
    AreSound (perform_all purged_file no_files) × IsUnique (perform_all purged_file no_files)
perform_all_sound_example = perform_all_sound purged_file
