-- ===== src/Client.antt =====
-- client.go of the Go client, clients/dbctlgo: creating and removing a database through the server.
pub mod Options
pub mod Http
pub mod Files
pub mod Requests
pub mod Upload
pub mod Parts
pub mod Form
pub mod Laws
pub mod Sorted
pub mod Cleanup
use dbctl.Base.{
  Bool, true, false, not, ◌&&◌, List, [], ◌∷◌, if◌then◌else◌, Text, codes, text_eq, is_empty, Error,
  errorf, wrap, Result, ok, err, Exec, pure, raise, lift, ◌>>=◌, ◌>>◌, try, with_context,
}
use dbctl.Client.Options.{Config, Setting, config_from, get_host_url}
use dbctl.Client.Http.{Host, CreateDbRequest, RemoveDbRequest}
use dbctl.Client.Requests.{http_do_create_db_request, http_do_remove_db_request}

abbrev pub database_postgres : Text
database_postgres = codes "postgres"

abbrev pub database_redis : Text
database_redis = codes "redis"

abbrev pub database_mongodb : Text
database_mongodb = codes "mongodb"

-- `ErrInvalidDatabaseType`
abbrev pub invalid_database_type : Error
invalid_database_type = errorf "invalid database type" []

abbrev pub is_invalid_type : Text → Bool
is_invalid_type db_type =
    not (text_eq db_type database_redis)
    && (not (text_eq db_type database_postgres) && not (text_eq db_type database_mongodb))

-- The request of `CreateDB`, given the absolute paths.
abbrev pub request_of : Text → Config → Text → Text → CreateDbRequest
request_of db_type cfg migrations_path fixtures_path = record {
  db_type = db_type;
  migrations = migrations_path;
  migrations_regex = cfg.migrations_file_regex;
  fixtures = fixtures_path;
  with_default_migrations = cfg.with_default_migrations;
  instance_port = cfg.instance_port;
  instance_user = cfg.instance_user;
  instance_pass = cfg.instance_pass;
  instance_name = cfg.instance_db_name;
}

module _ {W : Type 0} (host : Host W) where
  unfoldable pub remove_db : Text → Text → List Setting → Exec W Unit
  unfolding config_from get_host_url http_do_remove_db_request
  remove_db db_type uri opts = do
    cfg ← lift (config_from host.env opts)
    http_do_remove_db_request host (record { db_type = db_type; uri = uri }) (get_host_url cfg)

  abbrev pub abs_or_empty : (Error → Error) → Text → Exec W Text
  abs_or_empty context path =
      if is_empty path then pure [] else with_context context (host.files.abs path)

  unfoldable pub create_db : Text → List Setting → Exec W Text
  unfolding config_from get_host_url http_do_create_db_request
  create_db db_type opts = if is_invalid_type db_type then raise invalid_database_type else do
    cfg ← lift (config_from host.env opts)
    migrations_path ← abs_or_empty (wrap "get migraions absolute path failed, %w" []) cfg.migrations
    fixtures_path ← abs_or_empty (wrap "get fixtures absolute path failed, %w" []) cfg.fixtures
    with_context (wrap "create %s database failed: %w" (db_type ∷ [])) (
        http_do_create_db_request host (request_of db_type cfg migrations_path fixtures_path)
          (get_host_url cfg))

  abbrev pub report : (Error → Exec W Unit) → Text → Result (Unit {0}) → Exec W Unit
  report report_error db_type (ok _) = pure tt
  report report_error db_type (err e) =
      report_error (wrap "failed to remove %s database: %v" (db_type ∷ []) e)

  -- `MustCreateDB`: the URI, and what `t.Cleanup` is given. An error here is `t.Fatalf`, and
  -- `report_error` is `t.Errorf`.
  unfoldable pub must_create_db :
      (Error → Exec W Unit) → Text → List Setting → Exec W (Text × Exec W Unit)
  unfolding create_db remove_db
  must_create_db report_error db_type opts = do
    uri ←
        with_context (wrap "failed to create %s database: %v" (db_type ∷ []))
          (create_db db_type opts)
    pure (uri, (do r ← try (remove_db db_type uri opts); report report_error db_type r))

  -- `MustCreatePostgresDB`, `MustCreateRedisDB` and `MustCreateMongoDB`
  abbrev pub must_create_postgres_db :
      (Error → Exec W Unit) → List Setting → Exec W (Text × Exec W Unit)
  must_create_postgres_db report_error = must_create_db report_error database_postgres

  abbrev pub must_create_redis_db :
      (Error → Exec W Unit) → List Setting → Exec W (Text × Exec W Unit)
  must_create_redis_db report_error = must_create_db report_error database_redis

  abbrev pub must_create_mongo_db :
      (Error → Exec W Unit) → List Setting → Exec W (Text × Exec W Unit)
  must_create_mongo_db report_error = must_create_db report_error database_mongodb
