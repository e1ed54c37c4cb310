-- ===== src/Redis.antt =====
-- internal/database/redis: config.go and the addresses of redis.go.
pub mod Server
pub mod Index
pub mod Fixtures
pub mod Start
pub mod Uri
use dbctl.Base.{
  ℕ, ◌+◌, ◌≡◌, Bool, true, false, ◌&&◌, not, Option, none, some, List, [], ◌∷◌, ◌++◌, map,
  if◌then◌else◌, Text, codes, text_eq, is_empty, trim_space, Error, errorf, wrap, Result, ok, err,
  Exec, pure, raise, lift, ◌>>=◌, ◌>>◌, with_context, then_result,
}
use dbctl.Base.Decimal.{ℤ, pos, negsuc, format_uint, parse_uint}
use dbctl.Base.Dict
use dbctl.Base.Dict.{Dict}
use dbctl.Net.Url
use dbctl.Net.Url.{Url, Userinfo}
use dbctl.Container.{Env}
use dbctl.Database.Host.{address}

abbrev pub default_port : ℕ
default_port = 16379

abbrev pub default_user : Text
default_user = []

abbrev pub default_pass : Text
default_pass = []

-- `config`, without its log writer, which nothing reads
pub record Config : Type 0 where
  pub pass : Text
  pub user : Text
  pub port : ℕ
  pub db_index : ℤ
  pub version : Text
  pub label : Text
  pub detached : Bool
  pub fixture_files : List Text

abbrev pub default_version : Text
default_version = codes "7.0.4"

abbrev pub supported_docker_versions : Dict Text
supported_docker_versions = (codes "7.0.4", codes "redis:7.0.4-bullseye") ∷ []

abbrev pub default_config : Config
default_config = record {
  pass = default_pass;
  user = default_user;
  port = default_port;
  db_index = pos 0;
  version = default_version;
  label = [];
  detached = false;
  fixture_files = [];
}

unfoldable pub get_versions : List Text
get_versions = map (λ kv. kv.0) supported_docker_versions

unfoldable pub is_supported : Text → List Text → Bool
is_supported v [] = false
is_supported v (k ∷ versions) = if text_eq k v then true else is_supported v versions

abbrev or_image : Text → Option Text → Text
or_image fallback none = fallback
or_image fallback (some image) = image

unfoldable pub get_redis_image : Text → Text
unfolding Dict.lookup
get_redis_image version =
    or_image (codes "redis:7.0.4-bullseye") (Dict.lookup version supported_docker_versions)

-- `Option`: a change of the configuration that may fail
abbrev pub Setting : Type 0
Setting = Config → Result Config

unfoldable pub with_host : Text → Text → ℤ → ℕ → Setting
with_host user pass db_index port c =
    ok (record c { user = user; pass = pass; port = port; db_index = db_index })

unfoldable pub with_label : Text → Setting
with_label label c = ok (record c { label = label })

unfoldable pub with_version : Text → Setting
unfolding trim_space is_supported get_versions
with_version version c =
    let vv = trim_space version in
    if is_empty vv
    then ok (record c { version = default_version })
    else if is_supported vv get_versions
    then ok (record c { version = version })
    else err (
        errorf "seleced redis version (%s) is not supported, select one of: %s" (vv ∷ get_versions))

-- The user and password of a URI, where it has them.
unfoldable pub apply_user : Option Userinfo → Config → Config
apply_user none c = c
apply_user (some u) c =
    let c' : Config = if is_empty u.username then c else record c { user = u.username } in
    elim u.password [ none ↦ c' | some p ↦ record c' { pass = p } ]

unfoldable pub apply_port : Text → Text → Config → Result Config
unfolding parse_uint
apply_port uri p c = if is_empty p then ok c else elim (parse_uint 32 p) [
  | ok port ↦ ok (record c { port = port })
  | err e ↦ err (wrap "invalid port in database uri %q: %w" (uri ∷ []) e)
]

unfoldable pub with_uri : Text → Setting
unfolding Url.parse Url.port apply_user apply_port
with_uri uri c = if is_empty uri then ok c else elim (Url.parse uri) [
  | ok u ↦ apply_port uri (Url.port u) (apply_user u.user c)
  | err e ↦ err (wrap "parse database uri failed: %w" [] e)
]

-- `New`: the options in turn, on the default configuration
unfoldable pub apply_settings : List Setting → Config → Result Config
apply_settings [] c = ok c
apply_settings (s ∷ settings) c = then_result (s c) (apply_settings settings)

unfoldable pub new : List Setting → Result Config
unfolding apply_settings
new settings = apply_settings settings default_config

-- `strconv.Itoa`
unfoldable pub format_int : ℤ → Text
unfolding format_uint
format_int (pos n) = format_uint n
format_int (negsuc n) = b'-' ∷ format_uint (n + 1)

module _ (env : Env) where
  unfoldable pub uri : Config → Text
  unfolding Url.print Url.join_host_port format_int
  uri c = Url.print (record {
    scheme = codes "redis";
    user =
        if not (is_empty c.user) && not (is_empty c.pass)
        then some (record { username = c.user; password = some c.pass })
        else if not (is_empty c.user)
        then some (record { username = c.user; password = none })
        else none;
    host = Url.join_host_port (address env) (format_uint c.port);
    path = format_int c.db_index;
    raw_query = [];
  })

  unfoldable pub no_auth_uri : Config → Text
  unfolding Url.print Url.join_host_port format_uint
  no_auth_uri c = Url.print (record {
    scheme = codes "redis";
    user = none;
    host = Url.join_host_port (address env) (format_uint c.port);
    path = codes "0";
    raw_query = [];
  })

  unfoldable pub admin_uri : Config → Text
  unfolding uri new with_host
  admin_uri c = elim (new (with_host c.user c.pass (pos 0) c.port ∷ [])) [
    | ok admin ↦ uri admin
    | err e ↦ uri c
  ]
