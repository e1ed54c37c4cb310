-- ===== src/Postgres.antt =====
-- internal/database/postgres: config.go and the addresses of pg.go.
pub mod Sql
pub mod Laws
pub mod Details
pub mod Uri
pub mod Create
pub mod Cluster
pub mod Start
use dbctl.Base.{
  ℕ, ◌≡◌, Bool, true, false, ◌&&◌, not, Option, none, some, List, [], ◌∷◌, ◌++◌, map, if◌then◌else◌,
  Text, codes, text_eq, is_empty, trim_space, to_lower, has_suffix, keep, take, Error, errorf, wrap,
  Result, ok, err, Exec, pure, raise, lift, ◌>>=◌, ◌>>◌, try, with_context, then_result,
}
use dbctl.Base.Decimal.{format_uint, parse_uint}
use dbctl.Base.Dict
use dbctl.Base.Dict.{Dict}
use dbctl.Net.Url
use dbctl.Net.Url.{Url, Userinfo}
use dbctl.Container.{Env}
use dbctl.Database.Host.{address}
use dbctl.Files.{Files, ext, base}
use dbctl.Files.Walk.{walk_files}

abbrev pub default_port : ℕ
default_port = 15432

abbrev pub default_user : Text
default_user = codes "postgres"

abbrev pub default_pass : Text
default_pass = codes "postgres"

abbrev pub default_name : Text
default_name = codes "postgres"

abbrev pub default_template : Text
default_template = codes "dbctl_template"

abbrev pub default_version : Text
default_version = codes "14.3.2"

-- `config`, without its log writer, which nothing reads. A list that is nil is `none`.
pub record Config : Type 0 where
  pub pass : Text
  pub user : Text
  pub name : Text
  pub port : ℕ
  pub version : Text
  pub label : Text
  pub with_ui : Bool
  pub migrations_files : Option (List Text)
  pub fixture_files : List Text

abbrev pub default_config : Config
default_config = record {
  pass = default_pass;
  user = default_user;
  name = default_name;
  port = default_port;
  version = default_version;
  label = [];
  with_ui = false;
  migrations_files = none;
  fixture_files = [];
}

abbrev pub supported_versions : Dict Text
supported_versions =
    (codes "10.3.2", codes "postgis/postgis:10-3.2-alpine")
    ∷ (codes "11.2.5", codes "postgis/postgis:11-2.5-alpine")
    ∷ (codes "11.3.2", codes "postgis/postgis:11-3.2-alpine")
    ∷ (codes "12.3.2", codes "postgis/postgis:12-3.2-alpine")
    ∷ (codes "13-3.1", codes "odidev/postgis:13-3.1-alpine")
    ∷ (codes "13.3.2", codes "postgis/postgis:13-3.2-alpine")
    ∷ (codes "14.3.2", codes "postgis/postgis:14-3.2-alpine")
    ∷ []

abbrev pub fallback_image : Text
fallback_image = codes "odidev/postgis:13-3.1-alpine"

unfoldable pub get_versions : List Text
get_versions = map (λ kv. kv.0) supported_versions

unfoldable pub is_supported : Text → List Text → Bool
is_supported v [] = false
is_supported v (k ∷ versions) = if text_eq k v then true else is_supported v versions

abbrev or_image : Text → Option Text → Text
or_image fallback none = fallback
or_image fallback (some image) = image

unfoldable pub get_post_gis_image : Text → Text
unfolding Dict.lookup
get_post_gis_image version = or_image fallback_image (Dict.lookup version supported_versions)

-- `Option`: a change of the configuration that may fail
abbrev pub Setting : Type 0
Setting = Config → Result Config

unfoldable pub with_ui : Bool → Setting
with_ui on c = ok (record c { with_ui = on })

unfoldable pub with_label : Text → Setting
with_label label c = ok (record c { label = label })

unfoldable pub with_host : Text → Text → Text → ℕ → Setting
with_host user pass name port c =
    ok (record c { user = user; pass = pass; name = name; port = port })

unfoldable pub with_version : Text → Setting
unfolding trim_space is_supported get_versions
with_version version c =
    let vv = trim_space version in
    if is_empty vv
    then ok (record c { version = default_version })
    else if is_supported vv get_versions
    then ok (record c { version = version })
    else err (
        errorf "seleced postgres version (%s) is not supported, select one of: %s"
          (vv ∷ get_versions))

-- The user and password of a URI, where it has them.
unfoldable pub apply_user : Option Userinfo → Config → Config
apply_user none c = c
apply_user (some u) c =
    let c' : Config = if is_empty u.username then c else record c { user = u.username } in
    elim u.password [ none ↦ c' | some p ↦ record c' { pass = p } ]

unfoldable pub apply_port : Text → Text → Config → Result Config
unfolding parse_uint
apply_port uri p c = if is_empty p then ok c else elim (parse_uint 32 p) [
  | ok port ↦ ok (record c { port = port })
  | err e ↦ err (wrap "invalid port in database uri %q: %w" (uri ∷ []) e)
]

unfoldable pub with_uri : Text → Setting
unfolding Url.parse Url.port apply_user apply_port
with_uri uri c = if is_empty uri then ok c else elim (Url.parse uri) [
  | ok u ↦ apply_port uri (Url.port u) (apply_user u.user c)
  | err e ↦ err (wrap "parse database uri failed: %w" [] e)
]

-- `New`: the options in turn, on the default configuration
unfoldable pub apply_settings : List Setting → Config → Result Config
apply_settings [] c = ok c
apply_settings (s ∷ settings) c = then_result (s c) (apply_settings settings)

unfoldable pub new : List Setting → Result Config
unfolding apply_settings
new settings = apply_settings settings default_config

-- `strings.HasSuffix(strings.ToLower(f), "down.sql")`
unfoldable pub is_down : Text → Bool
unfolding to_lower has_suffix
is_down f = has_suffix (to_lower f) (codes "down.sql")

unfoldable pub migration_files : List Text → List Text
unfolding is_down
migration_files files = keep (λ f. not (is_down f)) files

unfoldable pub is_sql : Text → Bool
unfolding ext to_lower
is_sql name = text_eq (to_lower (ext name)) (codes ".sql")

abbrev or_nil : Option (List Text) → List Text
or_nil none = []
or_nil (some l) = l

module _ {W : Type 0} (files : Files W) where
  unfoldable pub get_files : Text → Exec W (List Text)
  unfolding walk_files is_sql
  get_files path = if is_empty path then pure [] else do
    dir ← with_context (wrap "get path information failed, %w" []) (files.is_dir path)
    if dir then walk_files files is_sql path else (do
      missing ← files.is_missing path
      if missing then raise (errorf "file %s not exit" (path ∷ [])) else pure (path ∷ []))

  -- `append` to a list of migrations, which stays nil when there is nothing to append to it.
  abbrev pub append_files : Option (List Text) → List Text → Option (List Text)
  append_files none [] = none
  append_files none (f ∷ fs) = some (f ∷ fs)
  append_files (some old) fs = some (old ++ fs)

  unfoldable pub with_migrations : Text → Config → Exec W Config
  unfolding get_files migration_files
  with_migrations path c = do
    found ← with_context (wrap "read migraions failed: %w" []) (get_files path)
    pure (record c { migrations_files = append_files c.migrations_files (migration_files found) })

  unfoldable pub with_fixtures : Text → Config → Exec W Config
  unfolding get_files
  with_fixtures path c = do
    found ← with_context (wrap "read fixtures failed: %w" []) (get_files path)
    pure (record c { fixture_files = found })

  -- SHA-256 as a hexadecimal text, and `filepath.Rel`, are the arguments `sha256` and `rel`.
  module _ (sha256 : Text → Text) (rel : Text → Text → Result Text) where
    abbrev relative : Text → Text → Text
    relative root f = elim (rel root f) [ ok name ↦ name | err e ↦ base f ]

    -- What the loop writes into the hash.
    unfoldable pub hash_input : Text → List Text → Text → Exec W Text
    unfolding base
    hash_input root [] written = pure written
    hash_input root (f ∷ fs) written = do
      b ← with_context (wrap "read migration file (%s) failed: %w" (f ∷ [])) (files.read_file f)
      hash_input root fs (written ++ (relative root f ++ b))

    unfoldable pub template_name : Text → List Text → Exec W Text
    unfolding hash_input
    template_name root fs = do
      abs_root ← files.abs root
      written ← hash_input abs_root fs []
      pure (codes "dbctl_tpl_" ++ take 32 (sha256 written))

module _ (env : Env) where
  unfoldable pub uri : Config → Text
  unfolding Url.print Url.join_host_port format_uint
  uri c = Url.print (record {
    scheme = codes "postgres";
    user = some (record { username = c.user; password = some c.pass });
    host = Url.join_host_port (address env) (format_uint c.port);
    path = c.name;
    raw_query = codes "sslmode=disable";
  })
