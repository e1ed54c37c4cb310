-- ===== src/SelfUpdate/Release.antt =====
-- internal/selfupdate/selfupdate.go: the last release, and the assets for this machine.
use dbctl.Base.{
  ℕ, Bool, ◌&&◌, List, [], ◌∷◌, ◌++◌, keep, if◌then◌else◌, ◌==◌, Text, codes, contains, errorf,
  Exec, pure, raise, lift, ◌>>=◌, ◌>>◌,
}
use dbctl.SelfUpdate.{Version, parse_version}
use dbctl.SelfUpdate.Machine.{Machine, Asset, Release}

pub record Updater : Type 0 where
  pub release_url : Text
  pub exec_file_name : Text

unfoldable pub new : Text → Text → Text → Updater
new owner repo exec_file_name = record {
  release_url =
      codes "https://api.github.com/repos/"
      ++ (owner ++ (b'/' ∷ (repo ++ codes "/releases/latest")));
  exec_file_name = exec_file_name;
}

module _ {W : Type 0} (m : Machine W) where
  abbrev is_for_machine : Asset → Bool
  is_for_machine a = contains a.browser_download_url m.os && contains a.browser_download_url m.arch

  unfoldable pub filter_assets_for_arch_and_os : Release → Release
  unfolding contains
  filter_assets_for_arch_and_os release = record {
    tag_name = release.tag_name;
    assets = keep is_for_machine release.assets;
  }

  abbrev read_release : ℕ → Exec W Release
  read_release body = do
    d ← m.read_all body
    out ← lift (m.decode_release d)
    pure (filter_assets_for_arch_and_os out)

  -- The body of the response is not closed.
  unfoldable pub get_last_release : Updater → Exec W Release
  unfolding filter_assets_for_arch_and_os
  get_last_release u = do
    lift (m.check_url u.release_url)
    res ← m.get u.release_url
    if res.status_code == 200
        then read_release res.body
        else raise (errorf "call github api failed with code " [])

  abbrev no_release : {A : Type 0} → Exec W A
  no_release = raise (errorf "no release found for your platform" [])

  unfoldable pub latest_version : Updater → Exec W Version
  unfolding get_last_release parse_version
  latest_version u = do
    release ← get_last_release u
    elim release.assets [ [] ↦ no_release | a ∷ assets ↦ lift (parse_version release.tag_name) ]

  -- The one asset that an update takes.
  abbrev pub only_asset : List Asset → Exec W Asset
  only_asset [] = no_release
  only_asset (a ∷ []) = pure a
  only_asset (a ∷ b ∷ assets) = no_release
