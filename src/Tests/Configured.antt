-- ===== src/Tests/Configured.antt =====
-- A command line for `dbctl start postgres`, read as cobra reads it.
use dbctl.Base.{
  ℕ, ap, ◌≡◌, refl, Bool, true, Option, none, some, [], if◌then◌else◌, Text, codes, text_eq,
  text_discrete, external, Result, ok, err,
}
use dbctl.Base.Decimal.{ℤ}
use mathlib.Core.Option.{get_or}
use dbctl.Postgres
use dbctl.Cmd.Flags.{Flags}
use dbctl.Cmd.Declared.{Value, number, integer, text, truth, Given, IsParsed, default_of}
use dbctl.Cmd.Declared.Configured.{postgres_flags, asked, postgres_config-asked}
use dbctl.Tests.Docker.{docker}
use dbctl.Tests.Redis.{no_env, no_files, host}

abbrev given : Given
given = record {
  numbers = λ name. if text_eq name (codes "port") then some 5433 else none;
  integers = λ name. none;
  texts = λ name.
      if text_eq name (codes "user")
      then some (codes "amy")
      else if text_eq name (codes "version")
      then some (codes "13.3.2")
      else none;
  truths = λ name. if text_eq name (codes "detach") then some true else none;
}

abbrev undeclared : {A : Type 0} → Result A
undeclared = err (external (codes "flag accessed but not defined"))

abbrev number_of : Text → Option Value → Result ℕ
number_of name (some (number d)) = ok (get_or (given.numbers name) d)
number_of name _ = undeclared

abbrev text_value : Text → Option Value → Result Text
text_value name (some (text d)) = ok (get_or (given.texts name) d)
text_value name _ = undeclared

abbrev truth_of : Text → Option Value → Result Bool
truth_of name (some (truth d)) = ok (get_or (given.truths name) d)
truth_of name _ = undeclared

abbrev integer_of : Text → Option Value → Result ℤ
integer_of name (some (integer d)) = ok (get_or (given.integers name) d)
integer_of name _ = undeclared

abbrev flags : Flags
flags = record {
  get_uint32 = λ name. number_of name (default_of name postgres_flags);
  get_int = λ name. integer_of name (default_of name postgres_flags);
  get_string = λ name. text_value name (default_of name postgres_flags);
  get_bool = λ name. truth_of name (default_of name postgres_flags);
}

flags-IsParsed : IsParsed flags postgres_flags given
flags-IsParsed = record {
  uint32_read = λ name d h. ap (number_of name) h;
  int_read = λ name d h. ap (integer_of name) h;
  string_read = λ name d h. ap (text_value name) h;
  bool_read = λ name d h. ap (truth_of name) h;
}

abbrev asked_config : Postgres.Config
asked_config = record Postgres.default_config {
  user = codes "amy";
  port = 5433;
  version = codes "13.3.2";
}

postgres_config-asked_example :
    (true ≡ true)
    × ((
      asked_config.user, asked_config.pass, asked_config.name, asked_config.port,
      asked_config.version, asked_config.label, asked_config.with_ui,
    )
        ≡ asked given)
unfolding text_discrete dbctl.Cmd.Start.postgres_config default_of dbctl.Postgres.new
    dbctl.Postgres.with_version dbctl.Postgres.with_migrations dbctl.Postgres.with_fixtures
    dbctl.Postgres.get_files dbctl.Postgres.apply_settings
postgres_config-asked_example =
    postgres_config-asked docker host no_env no_files flags given flags-IsParsed [] true
      asked_config refl
