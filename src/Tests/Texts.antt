-- ===== src/Tests/Texts.antt =====
-- Uploaded names, escaped texts and the files of a walk.
use dbctl.Base.{
  ℕ, ◌≡◌, refl, Bool, true, false, List, [], ◌∷◌, Text, codes, text_discrete, ok, pure,
}
use mathlib.Core.List.Perm
use dbctl.Files.{DirEntry, Files}
use dbctl.Files.Walk.{walk_files}
use dbctl.Files.Walk.Canonical.{walk_files-canonical}
use dbctl.Net.Url.{encode_user, escape, unescape}
use dbctl.Net.Url.Escape.{unescape-escape}
use dbctl.ApiServer.Upload.{upload_path}
use dbctl.ApiServer.Upload.Safe.{IsInside, upload_path-IsInside}

upload_path-IsInside_example : IsInside (codes "sub/2.sql")
unfolding upload_path text_discrete
upload_path-IsInside_example =
    upload_path-IsInside (codes "sub%2Fx/../2.sql") (codes "sub/2.sql") refl

unescape-escape_example : unescape (escape encode_user (codes "p@ss:/%")) ≡ ok (codes "p@ss:/%")
unescape-escape_example = unescape-escape encode_user (codes "p@ss:/%") refl refl

abbrev dir : DirEntry
dir = record { path = codes "/m"; name = codes "m"; is_dir = true }

abbrev file_a : DirEntry
file_a = record { path = codes "/m/a.sql"; name = codes "a.sql"; is_dir = false }

abbrev file_b : DirEntry
file_b = record { path = codes "/m/b.sql"; name = codes "b.sql"; is_dir = false }

abbrev folder : List DirEntry → Files ℕ
folder found = record {
  is_dir = λ path. pure true;
  is_missing = λ path. pure false;
  abs = λ path. pure path;
  walk = λ root. pure found;
  read_file = λ path. pure [];
}

abbrev any_name : Text → Bool
any_name name = true

abbrev lexical : List DirEntry
lexical = dir ∷ file_a ∷ file_b ∷ []

abbrev shuffled : List DirEntry
shuffled = dir ∷ file_b ∷ file_a ∷ []

walk_files-canonical_example :
    (walk_files (folder lexical) any_name (codes "/m") 0).0
    ≡ (walk_files (folder shuffled) any_name (codes "/m") 0).0
walk_files-canonical_example =
    walk_files-canonical (folder lexical) (folder shuffled) any_name (codes "/m") (codes "/m")
      (codes "/m") 0 0 lexical shuffled refl refl refl refl
      (Perm.cons dir (Perm.swap file_b file_a []))
