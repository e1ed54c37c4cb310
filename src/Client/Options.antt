-- ===== src/Client/Options.antt =====
-- options.go of the Go client: its configuration, and the options that change it.
use dbctl.Base.{
  ℕ, ◌++◌, Bool, true, false, List, [], ◌∷◌, if◌then◌else◌, Text, codes, is_empty, errorf, Result,
  ok, err, then_result,
}
use dbctl.Base.Decimal.{format_uint, parse_uint}
use dbctl.Container.{Env}
use dbctl.Net.Url

pub record Config : Type 0 where
  pub migrations : Text
  pub migrations_file_regex : Text
  pub fixtures : Text
  pub with_default_migrations : Bool
  pub instance_port : ℕ
  pub instance_user : Text
  pub instance_pass : Text
  pub instance_db_name : Text
  pub host_address : Text
  pub host_port : ℕ

abbrev pub env_host : Text
env_host = codes "DBCTL_HOST"

abbrev pub env_port : Text
env_port = codes "DBCTL_PORT"

abbrev pub default_config : Config
default_config = record {
  migrations = [];
  migrations_file_regex = [];
  fixtures = [];
  with_default_migrations = false;
  instance_port = 0;
  instance_user = [];
  instance_pass = [];
  instance_db_name = [];
  host_address = codes "localhost";
  host_port = 1988;
}

abbrev host_from : Text → Config → Config
host_from host c = if is_empty host then c else record c { host_address = host }

abbrev port_from : Text → Result ℕ → Config → Result Config
port_from port (ok p) c = ok (record c { host_port = p })
port_from port (err e) c = err (errorf "%s is not a valid port number: %q" (env_port ∷ port ∷ []))

unfoldable pub from_env : Env → Config → Result Config
unfolding parse_uint
from_env env c =
    if is_empty (env env_port)
    then ok (host_from (env env_host) c)
    else port_from (env env_port) (parse_uint 32 (env env_port)) (host_from (env env_host) c)

-- `Option`, with the configuration that it leaves behind
abbrev pub Setting : Type 0
Setting = Config → Result Config

unfoldable pub with_migrations : Text → Setting
with_migrations migrations c = ok (record c { migrations = migrations })

unfoldable pub with_default_migrations : Setting
with_default_migrations c = ok (record c { with_default_migrations = true })

unfoldable pub with_fixtures : Text → Setting
with_fixtures fixtures c = ok (record c { fixtures = fixtures })

unfoldable pub with_instance : Text → Text → Text → Text → ℕ → Setting
with_instance user pass address name port c = ok (record c {
  instance_user = user;
  instance_pass = pass;
  instance_db_name = name;
  instance_port = port;
})

unfoldable pub with_host : Text → ℕ → Setting
with_host address port c = ok (record c { host_address = address; host_port = port })

unfoldable pub with_migrations_file_regex : Text → Setting
with_migrations_file_regex regex c = ok (record c { migrations_file_regex = regex })

unfoldable pub apply_options : List Setting → Config → Result Config
apply_options [] c = ok c
apply_options (opt ∷ opts) c = then_result (opt c) (apply_options opts)

-- `configFrom` of client.go
unfoldable pub config_from : Env → List Setting → Result Config
unfolding from_env apply_options
config_from env opts = then_result (from_env env default_config) (apply_options opts)

unfoldable pub get_host_url : Config → Text
unfolding Url.join_host_port format_uint
get_host_url c = codes "http://" ++ Url.join_host_port c.host_address (format_uint c.host_port)
