-- ===== src/Mongo.antt =====
-- internal/database/mongodb: config.go and the address of mongodb.go.
pub mod Client
pub mod Script
pub mod Admin
use dbctl.Base.{
  ℕ, ◌≡◌, Bool, true, false, ◌&&◌, not, Option, none, some, List, [], ◌∷◌, ◌++◌, map, if◌then◌else◌,
  Text, codes, text_eq, is_empty, trim_space, to_lower, Error, errorf, wrap, Result, ok, err, Exec,
  pure, raise, lift, ◌>>=◌, ◌>>◌, try, with_context, then_result,
}
use dbctl.Base.Decimal.{format_uint, parse_uint}
use dbctl.Base.Dict
use dbctl.Base.Dict.{Dict}
use dbctl.Net.Url
use dbctl.Net.Url.{Url, Userinfo, encode_query}
use dbctl.Container.{Env}
use dbctl.Database.Host.{address}
use dbctl.Files.{Files, ext}
use dbctl.Files.Walk.{walk_files}
use dbctl.Utils.{one_of}

abbrev pub default_port : ℕ
default_port = 27017

abbrev pub default_user : Text
default_user = codes "mongodb"

abbrev pub default_pass : Text
default_pass = codes "mongodb"

abbrev pub default_name : Text
default_name = codes "admin"

abbrev pub default_version : Text
default_version = codes "7.0"

-- `config`, without its log writer, which nothing reads
pub record Config : Type 0 where
  pub user : Text
  pub pass : Text
  pub name : Text
  pub port : ℕ
  pub version : Text
  pub label : Text
  pub with_ui : Bool
  pub migrations_files : List Text
  pub fixture_files : List Text

abbrev pub default_config : Config
default_config = record {
  user = default_user;
  pass = default_pass;
  name = default_name;
  port = default_port;
  version = default_version;
  label = [];
  with_ui = false;
  migrations_files = [];
  fixture_files = [];
}

abbrev pub supported_versions : Dict Text
supported_versions = (codes "6.0", codes "mongo:6.0") ∷ (codes "7.0", codes "mongo:7.0") ∷ []

abbrev pub fallback_image : Text
fallback_image = codes "mongo:7.0"

unfoldable pub get_versions : List Text
get_versions = map (λ kv. kv.0) supported_versions

unfoldable pub is_supported : Text → List Text → Bool
is_supported v [] = false
is_supported v (k ∷ versions) = if text_eq k v then true else is_supported v versions

abbrev or_image : Text → Option Text → Text
or_image fallback none = fallback
or_image fallback (some image) = image

unfoldable pub get_mongo_db_image : Text → Text
unfolding Dict.lookup
get_mongo_db_image version = or_image fallback_image (Dict.lookup version supported_versions)

-- `Option`: a change of the configuration that may fail
abbrev pub Setting : Type 0
Setting = Config → Result Config

unfoldable pub with_ui : Bool → Setting
with_ui on c = ok (record c { with_ui = on })

unfoldable pub with_label : Text → Setting
with_label label c = ok (record c { label = label })

unfoldable pub with_host : Text → Text → Text → ℕ → Setting
with_host user pass name port c =
    ok (record c { user = user; pass = pass; name = name; port = port })

unfoldable pub with_version : Text → Setting
unfolding trim_space is_supported get_versions
with_version version c =
    let vv = trim_space version in
    if is_empty vv
    then ok (record c { version = default_version })
    else if is_supported vv get_versions
    then ok (record c { version = version })
    else err (
        errorf "selected MongoDB version (%s) is not supported, select one of: %s"
          (vv ∷ get_versions))

-- The user and password of a URI, where it has them.
unfoldable pub apply_user : Option Userinfo → Config → Config
apply_user none c = c
apply_user (some u) c =
    let c' : Config = if is_empty u.username then c else record c { user = u.username } in
    elim u.password [ none ↦ c' | some p ↦ record c' { pass = p } ]

unfoldable pub apply_port : Text → Text → Config → Result Config
unfolding parse_uint
apply_port uri p c = if is_empty p then ok c else elim (parse_uint 32 p) [
  | ok port ↦ ok (record c { port = port })
  | err e ↦ err (wrap "invalid port in database uri %q: %w" (uri ∷ []) e)
]

unfoldable pub with_uri : Text → Setting
unfolding Url.parse Url.port apply_user apply_port
with_uri uri c = if is_empty uri then ok c else elim (Url.parse uri) [
  | ok u ↦ apply_port uri (Url.port u) (apply_user u.user c)
  | err e ↦ err (wrap "parse database uri failed: %w" [] e)
]

-- `New`: the options in turn, on the default configuration
unfoldable pub apply_settings : List Setting → Config → Result Config
apply_settings [] c = ok c
apply_settings (s ∷ settings) c = then_result (s c) (apply_settings settings)

unfoldable pub new : List Setting → Result Config
unfolding apply_settings
new settings = apply_settings settings default_config

unfoldable pub is_script : Text → Bool
unfolding ext to_lower one_of
is_script name = one_of (to_lower (ext name)) (codes ".js" ∷ codes ".json" ∷ [])

module _ {W : Type 0} (files : Files W) where
  unfoldable pub get_files : Text → Exec W (List Text)
  unfolding walk_files is_script
  get_files path = if is_empty path then pure [] else do
    dir ← with_context (wrap "get path information failed, %w" []) (files.is_dir path)
    if dir then walk_files files is_script path else (do
      missing ← files.is_missing path
      if missing then raise (errorf "file %s not exit" (path ∷ [])) else pure (path ∷ []))

  unfoldable pub with_migrations : Text → Config → Exec W Config
  unfolding get_files
  with_migrations path c = do
    found ← with_context (wrap "read migrations failed: %w" []) (get_files path)
    pure (record c { migrations_files = found })

  unfoldable pub with_fixtures : Text → Config → Exec W Config
  unfolding get_files
  with_fixtures path c = do
    found ← with_context (wrap "read fixtures failed: %w" []) (get_files path)
    pure (record c { fixture_files = found })

module _ (env : Env) where
  unfoldable pub uri : Config → Text
  unfolding Url.escape Url.join_host_port format_uint
  uri c =
      codes "mongodb://"
      ++ (Url.escape encode_query c.user
          ++ (b':'
              ∷ (Url.escape encode_query c.pass
                  ++ (b'@'
                      ∷ (Url.join_host_port (address env) (format_uint c.port)
                          ++ (b'/' ∷ c.name))))))
