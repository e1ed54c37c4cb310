-- ===== src/Tests/Postgres.antt =====
-- A PostgreSQL server that refuses every statement, and the configuration of the package pg.
use dbctl.Base.{
  ℕ, ◌≡◌, refl, true, false, List, [], ◌∷◌, ◌++◌, Text, codes, external, Result, ok, pure, raise,
  some,
}
use dbctl.Container.{Env}
use dbctl.Files.{Files}
use dbctl.Postgres.{template_name}
use dbctl.Postgres.Sql.{Sql, quote_identifier}
use dbctl.Postgres.Sql.Quote.{read_identifier, stored, quote_identifier-read_identifier}
use dbctl.Postgres.Create.{CreateDbRequest}
use dbctl.Postgres.Laws.{template_name-joined}

-- What is committed, and the connections that are open.
record Tables : Type 0 where
  rows : List Text
  opened : ℕ

-- Statements run but fail when they are committed.
abbrev strict : Sql Tables
strict = record {
  open_db = λ target w. (ok 1, record w { opened = 1 });
  ping = λ conn. pure tt;
  close = λ conn w. (ok tt, record w { opened = 0 });
  exec = λ conn stmt args. raise (external (codes "permission denied"));
  begin_tx = λ conn. pure 2;
  tx_exec = λ tx stmt. pure tt;
  rollback = λ tx. pure tt;
  commit = λ tx. raise (external (codes "serialization failure"));
}

abbrev tables : Tables
tables = record { rows = codes "ann" ∷ []; opened = 0 }

abbrev no_env : Env
no_env name = []

abbrev two_files : Files Tables
two_files = record {
  is_dir = λ path. pure true;
  is_missing = λ path. pure false;
  abs = λ path. pure path;
  walk = λ root. pure [];
  read_file = λ path. pure (codes "select 1;");
}

abbrev digest : Text → Text
digest s = s

abbrev relative_to : Text → Text → Result Text
relative_to root path = ok path

abbrev plain_request : CreateDbRequest
plain_request = record { migrations = []; fixtures = []; with_default_migrations = false }

quote_identifier-read_identifier_example :
    read_identifier (quote_identifier (codes "a\"; drop") ++ codes " with template t")
    ≡ some (stored (codes "a\"; drop"), codes " with template t")
quote_identifier-read_identifier_example =
    quote_identifier-read_identifier (codes "a\"; drop") (codes " with template t") refl refl

template_name-joined_example :
    template_name two_files digest relative_to
      (codes "/m")
      (codes "1.sql" ∷ codes "2.sql" ∷ [])
      tables
    ≡ (ok (codes "dbctl_tpl_1.sqlselect 1;2.sqlselect 1;"), tables)
template_name-joined_example =
    template_name-joined two_files digest relative_to (λ f. codes "select 1;") (codes "/m")
      (codes "/m") (codes "1.sql" ∷ codes "2.sql" ∷ []) tables (λ f v. refl) refl
