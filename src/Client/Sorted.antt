-- ===== src/Client/Sorted.antt =====
-- client.go: which files are sent, and in which order.
use dbctl.Base.{
  Bool, not, ◌&&◌, Option, List, [], Text, Result, ok, err, Exec, pure, lift, ◌>>=◌, ◌>>◌,
}
use mathlib.Core.List.{Perm}
use mathlib.Core.List.Perm
use dbctl.Base.Sort.{sort_by}
use dbctl.Files.{DirEntry}
use dbctl.Client.Http.{Host}
use dbctl.Client.Files.{UploadFile, collect, compile_pattern, matches}

abbrev or_nothing : Result Text → Text
or_nothing (ok s) = s
or_nothing (err e) = []

module _ {W : Type 0} (host : Host W) where
  -- A file of the walk that the regular expression, if there is one, accepts by its relative path.
  abbrev pub is_wanted : Text → Option (Text → Bool) → DirEntry → Bool
  is_wanted root regex d = not d.is_dir && matches regex (or_nothing (host.rel root d.path))

  -- The relative path and the path of a file.
  abbrev pub place : UploadFile → Text × Text
  place f = (f.rel, f.path)

  abbrev pub place_of : Text → DirEntry → Text × Text
  place_of root d = (or_nothing (host.rel root d.path), d.path)

  abbrev sorted : List UploadFile → Exec W (List UploadFile)
  sorted out = pure (sort_by (λ f. f.rel) out)

  abbrev after_walk : Text → Option (Text → Bool) → List DirEntry → Exec W (List UploadFile)
  after_walk root regex entries = lift (collect host root regex entries) >>= sorted

  abbrev after_regex : Text → Option (Text → Bool) → Exec W (List UploadFile)
  after_regex root regex = host.files.walk root >>= after_walk root regex

  abbrev after_stat : Text → Text → Exec W (List UploadFile)
  after_stat pattern root = lift (compile_pattern host pattern) >>= after_regex root

  abbrev after_abs : Text → Text → Exec W (List UploadFile)
  after_abs pattern root = host.stat root >> after_stat pattern root
