-- ===== src/SelfUpdate/Install.antt =====
-- internal/selfupdate/selfupdate.go: downloading, unpacking and putting in place.
use dbctl.Base.{
  ℕ, none, some, List, [], ◌∷◌, ◌++◌, if◌then◌else◌, ◌==◌, Text, codes, errorf, wrap, Error, Result,
  ok, err, Exec, pure, raise, lift, ◌>>=◌, ◌>>◌, try, defer, with_context,
}
use dbctl.Files.{base}
use dbctl.Files.Paths.{join, dir_of}
use dbctl.Net.Url
use dbctl.SelfUpdate.Machine.{Machine, Header, directory, regular, other}
use dbctl.SelfUpdate.Release.{Updater, get_last_release, only_asset}

abbrev tmp : Text
tmp = codes "/tmp"

abbrev pub rollback_failed : Error → Error
rollback_failed = wrap "rollback failed, %w" []

module _ {W : Type 0} (m : Machine W) where
  -- What `downloadAsset` does once it has created its file.
  abbrev fetch : Text → ℕ → Exec W Unit
  fetch url out = do
    lift (m.check_url url)
    resp ← m.get url
    defer (m.close_body resp.body) (
        if resp.status_code == 200
        then m.copy out resp.body
        else raise (errorf "download asset failed, status code: %s" (resp.status ∷ [])))

  unfoldable pub download_asset : Text → Text → Exec W Unit
  download_asset url dest = do out ← m.create_file dest; defer (m.close_file out) (fetch url out)

  -- One entry of an archive. The file of an entry that cannot be copied stays open.
  unfoldable pub extract_entry : ℕ → Text → Header → Exec W Unit
  unfolding join
  extract_entry archive dest header = elim header.type_flag [
    | directory ↦ with_context (wrap "make dir failed:%w" []) (m.mkdir (join dest header.name))
    | regular ↦ do
      out ← with_context (wrap "create file failed:%w" []) (m.create_file (join dest header.name))
      with_context (wrap "copy failed:%w" []) (m.copy out archive)
      closed ← try (m.close_file out)
      pure tt
    | other ↦ raise (errorf "unknown file structure" [])
  ]

  unfoldable pub extract_entries : ℕ → Text → List (Result Header) → Exec W Unit
  unfolding extract_entry
  extract_entries archive dest [] = pure tt
  extract_entries archive dest (next ∷ headers) = do
    header ← lift next
    extract_entry archive dest header
    extract_entries archive dest headers

  unfoldable pub extract_tar_gz : Text → Text → Exec W Unit
  unfolding extract_entries
  extract_tar_gz source dest = do
    m.mkdir_all dest
    src ← m.open_file source
    archive ← m.gunzip src
    headers ← m.entries archive
    extract_entries archive dest headers

  -- The new executable takes the place of the old one, which is kept under its own name; the old one
  -- is moved back if that fails.
  unfoldable pub swap : Text → Text → Text → Exec W Unit
  swap target new_binary old_binary = do
    removed ← try (m.remove old_binary)
    m.rename target old_binary
    moved ← try (m.rename new_binary target)
    elim moved [
      | ok _ ↦ pure tt
      | err e ↦ do
        back ← try (m.rename old_binary target)
        elim back [ ok _ ↦ raise e | err _ ↦ raise (rollback_failed e) ]
    ]

  abbrev hidden : Text → Text → Text
  hidden filename ext = b'.' ∷ (filename ++ ext)

  -- What `Update` does with the unpacked archive, up to its end: the new executable gets the contents
  -- that were downloaded and the mode of the running one. The files are closed once before the swap and
  -- once more at the end.
  unfoldable pub install : Text → Text → Exec W Unit → Exec W Unit
  unfolding swap join dir_of base
  install target downloaded clean_up = do
    let new_binary = join (dir_of target) (hidden (base target) (codes ".new"))
    let old_binary = join (dir_of target) (hidden (base target) (codes ".old"))
    downloaded_file ← m.open_file downloaded
    defer (m.close_file downloaded_file) (do
      mode ← m.file_mode target
      fp ← m.open_new new_binary mode
      defer (m.close_file fp) (do
        m.copy fp downloaded_file
        closed ← try (m.close_file fp)
        shut ← try (m.close_file downloaded_file)
        swap target new_binary old_binary
        clean_up))

  abbrev until_dot : Text → Result Text
  until_dot name = elim (Url.cut b'.' name).1 [
    | none ↦ err (errorf "update failed to find path directory name" [])
    | some after ↦ ok (Url.cut b'.' name).0
  ]

  unfoldable pub update : Updater → Exec W Unit
  unfolding get_last_release download_asset extract_tar_gz install join Url.cut
  update u = do
    target ← m.executable
    release ← get_last_release m u
    asset ← only_asset m release.assets
    download_asset asset.browser_download_url (join tmp asset.name)
    stem ← lift (until_dot asset.name)
    extract_tar_gz (join tmp asset.name) (join tmp stem)
    install target (join (join tmp stem) u.exec_file_name) (do
      unpacked ← try (m.remove_all (join tmp stem))
      archive ← try (m.remove_all (join tmp asset.name))
      pure tt)
