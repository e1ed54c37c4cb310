-- ===== src/Client/Files.antt =====
-- client.go: the files that a client sends, sorted by their path below the directory they are in.
use dbctl.Base.{
  Bool, true, Option, none, some, List, [], ◌∷◌, if◌then◌else◌, Text, is_empty, wrap, Result, ok,
  err, then_result, Exec, pure, lift, ◌>>=◌, ◌>>◌,
}
use dbctl.Base.Sort.{sort_by}
use dbctl.Files.{DirEntry}
use dbctl.Client.Http.{Host}

-- `uploadFile`; its field `path` is that of the file system.
pub record UploadFile : Type 0 where
  pub rel : Text
  pub path : Text

abbrev pub matches : Option (Text → Bool) → Text → Bool
matches none s = true
matches (some regex) s = regex s

abbrev add_match : Option (Text → Bool) → Text → Text → List UploadFile → List UploadFile
add_match regex rel path out =
    if matches regex rel then record { rel = rel; path = path } ∷ out else out

module _ {W : Type 0} (host : Host W) where
  -- The regular expression, if there is one.
  unfoldable pub compile_pattern : Text → Result (Option (Text → Bool))
  compile_pattern pattern = if is_empty pattern then ok none else elim (host.compile pattern) [
    | ok regex ↦ ok (some regex)
    | err e ↦ err (wrap "invalid regex pattern: %w" [] e)
  ]

  -- What the function given to `filepath.WalkDir` appends to `out`.
  unfoldable pub collect : Text → Option (Text → Bool) → List DirEntry → Result (List UploadFile)
  collect root regex [] = ok []
  collect root regex (d ∷ entries) =
      let rest = collect root regex entries in
      if d.is_dir
      then rest
      else then_result (host.rel root d.path)
          λ rel. then_result rest λ out. ok (add_match regex rel d.path out)

  unfoldable pub get_files_list : Text → Text → Exec W (List UploadFile)
  unfolding compile_pattern collect sort_by
  get_files_list dir pattern = if is_empty dir then pure [] else do
    abs_path ← host.files.abs dir
    host.stat abs_path
    regex ← lift (compile_pattern pattern)
    entries ← host.files.walk abs_path
    out ← lift (collect abs_path regex entries)
    pure (sort_by (λ f. f.rel) out)
