-- ===== src/Postgres/Create.antt =====
-- pg.go: creating a database, from a template where there is one, and removing it.
use dbctl.Base.{
  ℕ, Bool, true, false, Option, none, some, List, [], ◌∷◌, ◌++◌, if◌then◌else◌, Text, codes,
  is_empty, contains, trim_prefix, Error, external, sentinel, errorf, wrap, wraps,
  database_not_exists, Result, ok, err, Exec, pure, raise, lift, ◌>>=◌, ◌>>◌, try, defer,
  with_context, for_each,
}
use dbctl.Base.Decimal.{format_uint}
use dbctl.Net.Url
use dbctl.Container.{Env}
use dbctl.Database.Host.{host_uri}
use dbctl.Files.{Files}
use dbctl.Postgres.{
  Config, new, with_host, uri, get_files, migration_files, template_name, default_template,
}
use dbctl.Postgres.Sql.{Sql, quote_identifier}

abbrev pub create_statement : Text → Text
create_statement name = codes "create database " ++ quote_identifier name

abbrev pub template_statement : Text → Text → Text
template_statement name template =
    codes "create database "
    ++ (quote_identifier name ++ (codes " with template " ++ quote_identifier template))

abbrev pub drop_statement : Text → Text
drop_statement name = codes "drop database if exists " ++ quote_identifier name

abbrev pub terminate_statement : Text
terminate_statement =
    codes
      "select pg_terminate_backend(pid) from pg_stat_activity where datname = $1 and pid <> pg_backend_pid()"

-- `err.Error()`: what the errors of the package print that the test below looks for is in the text of
-- the driver's error, which `external` holds.
unfoldable pub error_text : Error → Text
error_text (external text) = text
error_text (wrap format args e) = error_text e
error_text e = []

-- The request of the package `database`.
pub record CreateDbRequest : Type 0 where
  pub migrations : Text
  pub fixtures : Text
  pub with_default_migrations : Bool

module _ {W : Type 0} (sql : Sql W) where
  unfoldable pub db_connect : Text → Exec W ℕ
  db_connect target = do conn ← sql.open_db target; sql.ping conn; pure conn

  unfoldable pub apply_in_tx : ℕ → Text → Exec W Unit
  apply_in_tx conn stmt = do
    tx ← sql.begin_tx conn
    done ← try (sql.tx_exec tx stmt)
    elim done [ err e ↦ try (sql.rollback tx) >> raise e | ok _ ↦ sql.commit tx ]

  unfoldable pub create_database : ℕ → Text → Exec W Unit
  unfolding quote_identifier
  create_database conn name =
      with_context (wrap "create database failed: %w" []) (sql.exec conn (create_statement name) [])

  -- What a failure to create from a template means.
  abbrev pub template_error : Error → Error
  template_error e =
      if contains (error_text e) (codes "does not exist")
      then sentinel database_not_exists
      else wrap "create database with template failed: %w" [] e

  unfoldable pub create_with_template : ℕ → Text → Text → Exec W Unit
  unfolding quote_identifier contains error_text
  create_with_template conn name template =
      with_context template_error (sql.exec conn (template_statement name template) [])

  module _ (files : Files W) where
    unfoldable pub apply_one : ℕ → Text → Exec W Unit
    unfolding apply_in_tx
    apply_one conn f = do
      b ← with_context (wrap "read file (%s) failed: %w" (f ∷ [])) (files.read_file f)
      with_context (wrap "applying file (%s) failed: %w" (f ∷ [])) (apply_in_tx conn b)

    -- Every caller passes no connection, so one is opened.
    unfoldable pub apply_sql : List Text → Text → Exec W Unit
    unfolding db_connect apply_one for_each
    apply_sql stmts target = do
      conn ← db_connect target
      defer (sql.close conn) (for_each stmts (apply_one conn))

    unfoldable pub run_migrations : Option (List Text) → Text → Exec W Unit
    unfolding apply_sql
    run_migrations none target = pure tt
    run_migrations (some fs) target = apply_sql fs target

    unfoldable pub apply_fixtures : List Text → Text → Exec W Unit
    unfolding apply_sql
    apply_fixtures [] target = pure tt
    apply_fixtures (f ∷ fs) target = apply_sql (f ∷ fs) target

    unfoldable pub apply_fixtures_from_dir : Text → Text → Exec W Unit
    unfolding get_files apply_sql
    apply_fixtures_from_dir dir target = if is_empty dir then pure tt else do
      fs ← with_context (wrap "read fixtures failed: %w" []) (get_files files dir)
      apply_sql fs target

    module _ (sha256 : Text → Text) (rel : Text → Text → Result Text) where
      -- The database is built from the migrations, and a copy of it is kept as the template. A copy
      -- that fails is no failure.
      unfoldable pub build : ℕ → Text → Text → List Text → Text → Exec W Unit
      unfolding create_database run_migrations create_with_template
      build conn name target fs template = do
        create_database conn name
        run_migrations (some fs) target
        copied ← try (create_with_template conn template name)
        pure tt

      -- The database from the files of the migrations, once there is one.
      unfoldable pub from_template : ℕ → Text → Text → List Text → Text → Exec W Unit
      unfolding create_with_template build
      from_template conn name target fs template = do
        copied ← try (create_with_template conn name template)
        elim copied [
          | ok _ ↦ pure tt
          | err e ↦ elim (wraps database_not_exists e) [
            | true ↦ build conn name target fs template
            | false ↦ raise e
          ]
        ]

      abbrev pub from_files : ℕ → Text → Text → Text → List Text → Exec W Unit
      from_files conn name target path [] = create_database conn name
      from_files conn name target path (f ∷ fs) = do
        template ← template_name files sha256 rel path (f ∷ fs)
        from_template conn name target (f ∷ fs) template

      unfoldable pub create_database_from_migrations : ℕ → Text → Text → Text → Exec W Unit
      unfolding get_files migration_files template_name from_template create_database
      create_database_from_migrations conn name target path = do
        fs ← with_context (wrap "read migraions failed: %w" []) (get_files files path)
        from_files conn name target path (migration_files fs)

      module _ (env : Env) (unix_nano : Exec W ℕ) where
        abbrev pub default_error : Error → Error
        default_error e =
            if wraps database_not_exists e
            then wrap
                "default template database %q not found, start the instance with migrations first: %w"
                (default_template ∷ []) e
            else e

        -- The `switch` of `CreateDB`.
        unfoldable pub create_named : ℕ → Text → Text → CreateDbRequest → Exec W Unit
        unfolding create_with_template create_database create_database_from_migrations
        create_named conn name target req =
            if req.with_default_migrations
            then with_context default_error (create_with_template conn name default_template)
            else if is_empty req.migrations
            then create_database conn name
            else create_database_from_migrations conn name target req.migrations

        -- `CreateDB` once it is connected.
        unfoldable pub create_on : Config → CreateDbRequest → ℕ → Exec W Text
        unfolding new with_host uri create_named apply_fixtures_from_dir host_uri format_uint
        create_on c req conn = do
          now ← unix_nano
          let name = codes "dbctl_" ++ format_uint now
          new_db ← lift (new (with_host c.user c.pass name c.port ∷ []))
          create_named conn name (uri env new_db) req
          if is_empty req.fixtures
              then pure tt
              else apply_fixtures_from_dir req.fixtures (uri env new_db)
          pure (host_uri env (uri env new_db))

        unfoldable pub create_db : Config → CreateDbRequest → Exec W Text
        unfolding db_connect uri create_on
        create_db c req = do
          conn ← db_connect (uri env c)
          defer (sql.close conn) (create_on c req conn)

  module _ (env : Env) where
    unfoldable pub drop_statements : ℕ → Text → Exec W Unit
    unfolding quote_identifier
    drop_statements conn name = do
      with_context (wrap "terminating connections to database %q failed: %w" (name ∷ []))
          (sql.exec conn terminate_statement (name ∷ []))
      with_context (wrap "drop database failed: %w" []) (sql.exec conn (drop_statement name) [])

    unfoldable pub remove_db : Config → Text → Exec W Unit
    unfolding Url.parse trim_prefix db_connect drop_statements uri
    remove_db c target = do
      u ← lift (Url.parse target)
      let name = trim_prefix u.path (b'/' ∷ [])
      if is_empty name
          then raise (errorf "uri %q does not contain a database name" (target ∷ []))
          else (do
            conn ← db_connect (uri env c)
            defer (sql.close conn) (drop_statements conn name))
