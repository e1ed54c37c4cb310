-- ===== src/Cmd/Start.antt =====
-- cmd/start: the commands that start an instance.
use dbctl.Base.{
  ℕ, Bool, Option, [], ◌∷◌, String, Text, codes, wrap, Result, Exec, pure, lift, ◌>>=◌,
  with_context,
}
use dbctl.Container.{Env}
use dbctl.Container.Docker.{Engine}
use dbctl.Files.{Files}
use dbctl.Cmd.Flags.{Flags}
use dbctl.Postgres
use dbctl.Postgres.Sql.{Sql}
use dbctl.Postgres.Start as PostgresStart
use dbctl.Redis
use dbctl.Redis.Server.{Server}
use dbctl.Redis.Start as RedisStart
use dbctl.Redis.Start.{Host}
use dbctl.Redis.Fixtures as RedisFixtures
use dbctl.Mongo
use dbctl.Mongo.Client.{Client}
use dbctl.Mongo.Admin as MongoAdmin

module _ {W : Type 0} (engine : Engine W) (host : Host W) (env : Env) (files : Files W)
    (flags : Flags) where
  abbrev arg : {A : Type 0} → String → Result A → Exec W A
  arg message r = with_context (wrap message []) (lift r)

  -- The configuration of the flags, read in the order of the source. Logs go to `io.Discard`.
  unfoldable pub postgres_config : Exec W (Bool × Postgres.Config)
  unfolding Postgres.new Postgres.with_host Postgres.with_version Postgres.with_migrations
      Postgres.with_fixtures Postgres.with_ui Postgres.with_label Postgres.apply_settings
  postgres_config = do
    port ← arg "invalid port args, %w" (flags.get_uint32 (codes "port"))
    label ← arg "invalid label args, %w" (flags.get_string (codes "label"))
    detach ← arg "invalid detach args, %w" (flags.get_bool (codes "detach"))
    with_ui ← arg "invalid ui args, %w" (flags.get_bool (codes "ui"))
    name ← arg "invalid name args, %w" (flags.get_string (codes "name"))
    pass ← arg "invalid pass args, %w" (flags.get_string (codes "pass"))
    user ← arg "invalid user args, %w" (flags.get_string (codes "user"))
    version ← arg "invalid version args, %w" (flags.get_string (codes "version"))
    migrations_path ← arg "invalid migrations args, %w" (flags.get_string (codes "migrations"))
    fixtures_path ← arg "invalid fixtures args, %w" (flags.get_string (codes "fixtures"))
    c ←
        lift (
          Postgres.new
            (Postgres.with_host user pass name port ∷ Postgres.with_version version ∷ []))
    c ← Postgres.with_migrations files migrations_path c
    c ← Postgres.with_fixtures files fixtures_path c
    c ← lift (Postgres.apply_settings (Postgres.with_ui with_ui ∷ Postgres.with_label label ∷ []) c)
    pure (detach, c)

  -- `none` is a wait that still runs, here and below.
  unfoldable pub run_postgres : Sql W → ℕ → Exec W (Option (Text × Postgres.Config))
  unfolding postgres_config PostgresStart.start
  run_postgres sql ticks = do
    (detach, c) ← postgres_config
    PostgresStart.start engine host env sql files ticks detach c

  unfoldable pub redis_config : Exec W (Bool × Redis.Config)
  unfolding Redis.new Redis.with_host Redis.with_version Redis.with_label RedisFixtures.get_files
  redis_config = do
    port ← arg "invalid port args, %w" (flags.get_uint32 (codes "port"))
    label ← arg "invalid label args, %w" (flags.get_string (codes "label"))
    db_index ← arg "invalid db index args, %w" (flags.get_int (codes "db"))
    detach ← arg "invalid detach args, %w" (flags.get_bool (codes "detach"))
    pass ← arg "invalid pass args, %w" (flags.get_string (codes "pass"))
    user ← arg "invalid user args, %w" (flags.get_string (codes "user"))
    version ← arg "invalid version args, %w" (flags.get_string (codes "version"))
    fixtures_path ← arg "invalid fixtures args, %w" (flags.get_string (codes "fixtures"))
    c ← lift (
        Redis.new (
          Redis.with_host user pass db_index port
          ∷ Redis.with_version version
          ∷ Redis.with_label label
          ∷ []))
    found ←
        with_context (wrap "read fixtures failed: %w" [])
          (RedisFixtures.get_files files fixtures_path)
    pure (detach, record c { fixture_files = found })

  unfoldable pub run_redis : Server W → ℕ → Exec W (Option Redis.Config)
  unfolding redis_config RedisStart.start
  run_redis redis ticks = do
    (detach, c) ← redis_config
    RedisStart.start engine host env redis files ticks detach c

  unfoldable pub mongo_config : Exec W (Bool × Mongo.Config)
  unfolding Mongo.new Mongo.with_host Mongo.with_version Mongo.with_migrations Mongo.with_fixtures
      Mongo.with_ui Mongo.with_label Mongo.apply_settings
  mongo_config = do
    port ← arg "invalid port args, %w" (flags.get_uint32 (codes "port"))
    label ← arg "invalid label args, %w" (flags.get_string (codes "label"))
    detach ← arg "invalid detach args, %w" (flags.get_bool (codes "detach"))
    with_ui ← arg "invalid ui args, %w" (flags.get_bool (codes "ui"))
    name ← arg "invalid name args, %w" (flags.get_string (codes "name"))
    pass ← arg "invalid pass args, %w" (flags.get_string (codes "pass"))
    user ← arg "invalid user args, %w" (flags.get_string (codes "user"))
    version ← arg "invalid version args, %w" (flags.get_string (codes "version"))
    migrations_path ← arg "invalid migrations args, %w" (flags.get_string (codes "migrations"))
    fixtures_path ← arg "invalid fixtures args, %w" (flags.get_string (codes "fixtures"))
    c ← lift (Mongo.new (Mongo.with_host user pass name port ∷ Mongo.with_version version ∷ []))
    c ← Mongo.with_migrations files migrations_path c
    c ← Mongo.with_fixtures files fixtures_path c
    c ← lift (Mongo.apply_settings (Mongo.with_ui with_ui ∷ Mongo.with_label label ∷ []) c)
    pure (detach, c)

  unfoldable pub run_mongodb : Client W → ℕ → Exec W (Option Mongo.Config)
  unfolding mongo_config MongoAdmin.start
  run_mongodb client ticks = do
    (detach, c) ← mongo_config
    MongoAdmin.start client engine files env host ticks detach c
