-- ===== src/ApiServer/Upload.antt =====
-- server.go: where the parts of a request are written.
pub mod Safe
use dbctl.Base.{
  ℕ, ◌≡◌, Bool, true, false, ◌&&◌, ◌||◌, Option, none, some, List, [], ◌∷◌, ◌++◌, if◌then◌else◌,
  ◌==◌, Text, codes, text_eq, is_empty, has_prefix, split, Error, errorf, wrap, Result, ok, err,
  Exec, pure, raise, lift, ◌>>=◌, ◌>>◌, defer, with_context, for_each,
}
use mathlib.Core.List.{reverse}
use dbctl.Net.Url
use dbctl.Files.Paths.{dot_dot, clean, is_abs, dir_of}
use dbctl.ApiServer.System.{System, FileHeader, Request}

abbrev or_raw : Text → Result Text → Text
or_raw raw (ok s) = s
or_raw raw (err e) = raw

unfoldable pub upload_path : Text → Result Text
unfolding Url.unescape clean has_prefix
upload_path filename =
    let name = clean (or_raw filename (Url.unescape filename)) in
    if text_eq name (b'.' ∷ []) || (text_eq name (b'/' ∷ []) || is_empty name)
    then err (errorf "invalid file name %q" (filename ∷ []))
    else if is_abs name || has_prefix name dot_dot
    then err (errorf "file name %q is outside the upload directory" (filename ∷ []))
    else ok name

-- `filepath.Join` of a directory and a clean relative name; the directory ends in no separator.
abbrev pub join_path : Text → Text → Text
join_path dir name = dir ++ (b'/' ∷ name)

module _ {W : Type 0} (sys : System W) where
  open sys use {mkdir_all, open_part, close_part, create_file, copy, close_file}

  unfoldable pub write_multipart_file : FileHeader → Text → Exec W Unit
  unfolding upload_path dir_of
  write_multipart_file f dst = do
    name ← lift (upload_path f.filename)
    open_part f.content
    defer (close_part f.content) (do
      mkdir_all (dir_of (join_path dst name))
      out ← create_file (join_path dst name)
      defer (close_file out)
          (with_context (wrap "write file (%s) failed: %w" (name ∷ [])) (copy out f.content)))

  unfoldable pub read_multipart_files : Request → Text → Text → Exec W Unit
  unfolding write_multipart_file for_each
  read_multipart_files r key dst = elim r.multipart [
    | none ↦ pure tt
    | some parts ↦ for_each (parts key) (λ f. write_multipart_file f dst)
  ]
