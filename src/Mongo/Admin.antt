-- ===== src/Mongo/Admin.antt =====
-- mongodb.go: creating and removing a database, and running an instance in a container.
use dbctl.Base.{
  ℕ, zero, suc, ◌%◌, ◌^◌, Bool, true, false, Option, none, some, List, [], ◌∷◌, ◌++◌, if◌then◌else◌,
  ◌==◌, Text, codes, is_empty, replace_all, trim_prefix, Error, wrap, wraps, deadline_exceeded,
  Result, ok, err, Exec, pure, raise, lift, ◌>>=◌, ◌>>◌, try, defer, with_context,
}
use dbctl.Base.Decimal.{format_uint}
use dbctl.Net.Url
use dbctl.Container.{
  Container, Env, CreateRequest, run, terminate, terminate_by_id, port_spec, label_type,
}
use dbctl.Container.Docker.{Engine}
use dbctl.Database.{Info, start_labels, instances_of, type_mongodb}
use dbctl.Database.Host.{host_uri}
use dbctl.Files.{Files}
use dbctl.Mongo.{Config, new, with_host, uri, get_mongo_db_image}
use dbctl.Mongo.Client.{Client}
use dbctl.Mongo.Script.{
  connect, apply_migrations_from_dir, apply_fixtures_from_dir, run_migrations, apply_fixtures,
}
use dbctl.Redis.Start.{Host}

abbrev connect_error : Error → Error
connect_error e = wrap "connect to MongoDB failed: %w" [] e

abbrev config_or : Config → Result Config → Config
config_or c (ok new_db) = new_db
config_or c (err e) = c

module _ {W : Type 0} (client : Client W) (engine : Engine W) (files : Files W) (env : Env) where
  unfoldable pub create_db : Exec W ℕ → Config → Text → Text → Exec W Text
  unfolding connect new with_host uri apply_migrations_from_dir apply_fixtures_from_dir host_uri
      format_uint
  create_db unix_nano c migrations fixtures = do
    n ← with_context connect_error (connect client env c)
    defer (client.disconnect n) (do
      now ← unix_nano
      let name = codes "dbctl_" ++ format_uint now
      let new_uri = uri env (config_or c (new (with_host c.user c.pass name c.port ∷ [])))
      if is_empty migrations
          then pure tt
          else with_context (wrap "applying migrations failed: %w" [])
              (apply_migrations_from_dir client engine files n name migrations)
      if is_empty fixtures
          then pure tt
          else with_context (wrap "applying fixtures failed: %w" [])
              (apply_fixtures_from_dir client engine files n name fixtures)
      pure (host_uri env new_uri))

  unfoldable pub remove_db : Config → Text → Exec W Unit
  unfolding Url.parse trim_prefix connect
  remove_db c target = do
    u ← lift (Url.parse target)
    n ← with_context connect_error (connect client env c)
    defer (client.disconnect n) (
        with_context (wrap "drop database failed: %w" [])
          (client.drop_database n (trim_prefix u.path (b'/' ∷ []))))

  -- The loop of `WaitForStart` on fuel, one unit for a tick; `none` is a loop that still runs.
  unfoldable pub wait_for_start : ℕ → Config → Exec W (Option (Result Unit))
  unfolding connect
  wait_for_start zero c = pure none
  wait_for_start (suc ticks) c = do
    conn ← try (connect client env c)
    elim conn [
      | ok n ↦ try (client.disconnect n) >> pure (some (ok tt))
      | err e ↦ elim (wraps deadline_exceeded e) [
        | true ↦ pure (some (err e))
        | false ↦ wait_for_start ticks c
      ]
    ]

  unfoldable pub create_request : Config → ℕ → ℕ → CreateRequest
  unfolding get_mongo_db_image port_spec format_uint start_labels
  create_request c now rnd = record {
    name = codes "dbctl_mongo_" ++ (format_uint now ++ (b'_' ∷ format_uint rnd));
    image = get_mongo_db_image c.version;
    exposed_ports = port_spec env (format_uint c.port) (codes "27017/tcp") ∷ [];
    cmd = [];
    env =
        (codes "MONGO_INITDB_ROOT_USERNAME", c.user)
        ∷ (codes "MONGO_INITDB_ROOT_PASSWORD", c.pass)
        ∷ [];
    labels = start_labels type_mongodb c.user c.pass c.name c.port c.label;
  }

  module _ (host : Host W) where
    -- `if port == 0 { port = GetAvailablePort() }`
    abbrev pick_port : Config → Exec W Config
    pick_port c =
        if c.port == 0
        then (do port ← host.available_port; pure (record c { port = port % 2 ^ 32 }))
        else pure c

    -- The container that runs, with the configuration it was started with; `none` is a wait that
    -- still runs. The source also returns the closer beside an error, which no caller looks at.
    unfoldable pub start_using_docker : ℕ → Config → Exec W (Option (Container × Config))
    unfolding create_request run wait_for_start
    start_using_docker ticks c = do
      rnd ← host.random
      c' ← pick_port c
      now ← host.unix_time
      cn ← run engine (create_request c' now rnd)
      waited ← wait_for_start ticks c'
      elim waited [ none ↦ pure none | some (err e) ↦ raise e | some (ok _) ↦ pure (some (cn, c')) ]

    unfoldable pub run_ui : Config → Exec W Container
    unfolding uri replace_all run port_spec format_uint
    run_ui c = do
      rnd ← host.random
      now ← host.unix_time
      run engine (record {
        name = codes "dbctl_mongo_express_" ++ (format_uint now ++ (b'_' ∷ format_uint rnd));
        image = codes "mongo-express:latest";
        exposed_ports = port_spec env (codes "8081") (codes "8081") ∷ [];
        cmd = [];
        env =
            (codes "ME_CONFIG_BASICAUTH_ENABLED", codes "false")
            ∷ (
              codes "ME_CONFIG_MONGODB_URL",
              replace_all (uri env c) (codes "localhost") (codes "host.docker.internal"),
            )
            ∷ [];
        labels = (label_type, codes "mongoexpress") ∷ [];
      })

    abbrev close_ui : Option Container → Exec W Unit
    close_ui none = pure tt
    close_ui (some ui) = terminate engine ui

    -- Detached, the instance keeps running. Otherwise its containers are closed when the context is
    -- done.
    abbrev leave : Bool → Option Container → Container → Config → Exec W (Option Config)
    leave true ui cn c = pure (some c)
    leave false ui cn c = close_ui ui >> (terminate engine cn >> pure (some c))

    abbrev start_ui : Config → Container → Exec W (Option Container)
    start_ui c cn =
        if c.with_ui
        then (do
          ui ← try (run_ui c)
          elim ui [ ok ui ↦ pure (some ui) | err e ↦ try (terminate engine cn) >> raise e ])
        else pure none

    -- `Start`; `none` is a wait that still runs.
    unfoldable pub start : ℕ → Bool → Config → Exec W (Option Config)
    unfolding start_using_docker run_migrations apply_fixtures run_ui terminate
    start ticks detach c = do
      started ← start_using_docker ticks c
      elim started [
        | none ↦ pure none
        | some (cn, c') ↦ do
          run_migrations client engine files env c'
          apply_fixtures client engine files env c'
          ui ← start_ui c' cn
          leave detach ui cn c'
      ]

module _ {W : Type 0} (engine : Engine W) where
  -- `Stop`, for the container of the field `containerID`
  unfoldable pub stop : Text → Exec W Unit
  unfolding terminate_by_id
  stop container_id = terminate_by_id engine container_id

  unfoldable pub instances : Text → Exec W (List Info)
  unfolding instances_of
  instances label = instances_of engine type_mongodb label
