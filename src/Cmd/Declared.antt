-- ===== src/Cmd/Declared.antt =====
-- cmd and main.go: the commands with their names and flags, as they are declared to the package cobra.
pub mod Configured
use dbctl.Base.{
  ℕ, ◌≡◌, Bool, false, Option, none, some, List, [], ◌∷◌, ◌++◌, if◌then◌else◌, Text, codes, text_eq,
  ok,
}
use mathlib.Core.Option.{get_or}
use dbctl.Base.Decimal.{ℤ, pos}
use dbctl.Cmd.Flags.{Flags}
use dbctl.Postgres
use dbctl.Redis
use dbctl.Mongo

-- The kinds of flags, each with a value of its kind.
pub data Value : Type 0 where
  number : ℕ → Value
  integer : ℤ → Value
  text : Text → Value
  truth : Bool → Value

-- A flag with its shorthand, which is empty where it has none, and its default.
pub record Flag : Type 0 where
  pub name : Text
  pub shorthand : Text
  pub default : Value

abbrev flag : Text → Text → Value → Flag
flag name shorthand default = record { name = name; shorthand = shorthand; default = default }

-- A command, with the names that it goes by and the flags of its own.
pub record Command : Type 0 where
  pub names : List Text
  pub flags : List Flag

abbrev pub root_flags : List Flag
root_flags = flag (codes "label") [] (text []) ∷ flag (codes "listen") [] (text []) ∷ []

-- The flags that `start` hands on to its commands.
abbrev pub start_flags : List Flag
start_flags =
    flag (codes "detach") (codes "d") (truth false) ∷ flag (codes "ui") [] (truth false) ∷ []

abbrev pub postgres_command : Command
postgres_command = record {
  names = codes "postgres" ∷ codes "pg" ∷ [];
  flags =
      flag (codes "port") (codes "p") (number Postgres.default_port)
      ∷ flag (codes "user") (codes "u") (text Postgres.default_user)
      ∷ flag (codes "pass") [] (text Postgres.default_pass)
      ∷ flag (codes "name") (codes "n") (text Postgres.default_name)
      ∷ flag (codes "version") (codes "v") (text [])
      ∷ flag (codes "migrations") (codes "m") (text [])
      ∷ flag (codes "fixtures") (codes "f") (text [])
      ∷ [];
}

abbrev pub redis_command : Command
redis_command = record {
  names = codes "redis" ∷ codes "rs" ∷ [];
  flags =
      flag (codes "port") (codes "p") (number Redis.default_port)
      ∷ flag (codes "db") [] (integer (pos 0))
      ∷ flag (codes "user") (codes "u") (text [])
      ∷ flag (codes "pass") [] (text [])
      ∷ flag (codes "version") (codes "v") (text [])
      ∷ flag (codes "fixtures") (codes "f") (text [])
      ∷ [];
}

abbrev pub mongo_command : Command
mongo_command = record {
  names = codes "mongodb" ∷ codes "mongo" ∷ codes "mdb" ∷ [];
  flags =
      flag (codes "port") (codes "p") (number Mongo.default_port)
      ∷ flag (codes "user") (codes "u") (text Mongo.default_user)
      ∷ flag (codes "pass") [] (text Mongo.default_pass)
      ∷ flag (codes "name") (codes "n") (text Mongo.default_name)
      ∷ flag (codes "version") (codes "v") (text [])
      ∷ flag (codes "migrations") (codes "m") (text [])
      ∷ flag (codes "fixtures") (codes "f") (text [])
      ∷ [];
}

abbrev pub start_commands : List Command
start_commands = postgres_command ∷ redis_command ∷ mongo_command ∷ []

abbrev pub stop_command : Command
stop_command = record { names = codes "stop" ∷ []; flags = [] }

abbrev pub list_command : Command
list_command = record { names = codes "list" ∷ codes "ls" ∷ []; flags = [] }

abbrev pub self_update_command : Command
self_update_command = record { names = codes "self-update" ∷ []; flags = [] }

abbrev pub api_server_command : Command
api_server_command = record {
  names = codes "api-server" ∷ [];
  flags =
      flag (codes "port") (codes "p") (text (codes "1988"))
      ∷ flag (codes "testing") (codes "t") (truth false)
      ∷ [];
}

abbrev pub describe_postgres_command : Command
describe_postgres_command = record {
  names = codes "postgres" ∷ codes "pg" ∷ [];
  flags =
      flag (codes "version") (codes "v") (text [])
      ∷ flag (codes "migrations") (codes "m") (text [])
      ∷ flag (codes "schema") (codes "s") (text (codes "public"))
      ∷ flag (codes "table") (codes "t") (text (codes "*"))
      ∷ [];
}

abbrev pub testing_command : Command
testing_command = record {
  names = codes "testing" ∷ [];
  flags = flag (codes "api-port") [] (text (codes "1988")) ∷ [];
}

-- What a flag is by default, looked up by its name.
unfoldable pub default_of : Text → List Flag → Option Value
default_of name [] = none
default_of name (f ∷ flags) = if text_eq f.name name then some f.default else default_of name flags

-- The values that a command line gives, by the names of the flags.
pub record Given : Type 0 where
  pub numbers : Text → Option ℕ
  pub integers : Text → Option ℤ
  pub texts : Text → Option Text
  pub truths : Text → Option Bool

-- Documented behaviour of cobra: a flag that is declared, read by its kind, has the value that it was
-- given, or else its default. Nothing is said of a flag that is not declared.
pub record IsParsed (flags : Flags) (declared : List Flag) (given : Given) : Type 0 where
  pub uint32_read :
      (name : Text) (d : ℕ)
      → default_of name declared ≡ some (number d)
      → flags.get_uint32 name ≡ ok (get_or (given.numbers name) d)
  pub int_read :
      (name : Text) (d : ℤ)
      → default_of name declared ≡ some (integer d)
      → flags.get_int name ≡ ok (get_or (given.integers name) d)
  pub string_read :
      (name d : Text)
      → default_of name declared ≡ some (text d)
      → flags.get_string name ≡ ok (get_or (given.texts name) d)
  pub bool_read :
      (name : Text) (d : Bool)
      → default_of name declared ≡ some (truth d)
      → flags.get_bool name ≡ ok (get_or (given.truths name) d)
