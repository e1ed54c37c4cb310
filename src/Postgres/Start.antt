-- ===== src/Postgres/Start.antt =====
-- pg.go: running an instance in a container.
use dbctl.Base.{
  ℕ, zero, suc, ◌%◌, ◌^◌, Bool, true, false, Option, none, some, List, [], ◌∷◌, ◌++◌, if◌then◌else◌,
  ◌==◌, Text, codes, replace_all, wraps, deadline_exceeded, Result, ok, err, Exec, pure, raise,
  ◌>>=◌, ◌>>◌, try,
}
use dbctl.Base.Decimal.{format_uint}
use dbctl.Container.{
  Container, Env, CreateRequest, run, terminate, terminate_by_id, port_spec, label_type,
}
use dbctl.Container.Docker.{Engine}
use dbctl.Database.{Info, start_labels, instances_of, type_postgres}
use dbctl.Files.{Files}
use dbctl.Postgres.{Config, uri, get_post_gis_image, default_template}
use dbctl.Postgres.Sql.{Sql}
use dbctl.Postgres.Create.{db_connect, create_with_template, run_migrations, apply_fixtures}
use dbctl.Redis.Start.{Host}

module _ {W : Type 0} (engine : Engine W) (host : Host W) (env : Env) (sql : Sql W)
    (files : Files W) where
  -- The loop of `WaitForStart` on fuel, one unit for a tick; `none` is a loop that still runs.
  unfoldable pub wait_for_start : ℕ → Config → Exec W (Option (Result Unit))
  unfolding db_connect uri
  wait_for_start zero c = pure none
  wait_for_start (suc ticks) c = do
    conn ← try (db_connect sql (uri env c))
    elim conn [
      | ok n ↦ try (sql.close n) >> pure (some (ok tt))
      | err e ↦ elim (wraps deadline_exceeded e) [
        | true ↦ pure (some (err e))
        | false ↦ wait_for_start ticks c
      ]
    ]

  unfoldable pub create_request : Config → ℕ → ℕ → CreateRequest
  unfolding get_post_gis_image port_spec format_uint start_labels
  create_request c now rnd = record {
    name = codes "dbctl_pg_" ++ (format_uint now ++ (b'_' ∷ format_uint rnd));
    image = get_post_gis_image c.version;
    exposed_ports = port_spec env (format_uint c.port) (codes "5432/tcp") ∷ [];
    cmd =
        codes "postgres"
        ∷ codes "-c"
        ∷ codes "fsync=off"
        ∷ codes "-c"
        ∷ codes "synchronous_commit=off"
        ∷ codes "-c"
        ∷ codes "full_page_writes=off"
        ∷ [];
    env =
        (codes "POSTGRES_PASSWORD", c.pass)
        ∷ (codes "POSTGRES_USER", c.user)
        ∷ (codes "POSTGRES_DB", c.name)
        ∷ [];
    labels = start_labels type_postgres c.user c.pass c.name c.port c.label;
  }

  -- `if port == 0 { port = GetAvailablePort() }`
  abbrev pick_port : Config → Exec W Config
  pick_port c =
      if c.port == 0
      then (do port ← host.available_port; pure (record c { port = port % 2 ^ 32 }))
      else pure c

  -- The container that runs, with the configuration it was started with; `none` is a wait that still
  -- runs. The source also returns the closer beside an error, which no caller looks at.
  unfoldable pub start_using_docker : ℕ → Config → Exec W (Option (Container × Config))
  unfolding create_request run wait_for_start
  start_using_docker ticks c = do
    rnd ← host.random
    c' ← pick_port c
    now ← host.unix_time
    cn ← run engine (create_request c' now rnd)
    waited ← wait_for_start ticks c'
    elim waited [ none ↦ pure none | some (err e) ↦ raise e | some (ok _) ↦ pure (some (cn, c')) ]

  unfoldable pub run_ui : Config → Exec W Container
  unfolding uri replace_all run port_spec format_uint
  run_ui c = do
    rnd ← host.random
    now ← host.unix_time
    run engine (record {
      name = codes "dbctl_pgweb_" ++ (format_uint now ++ (b'_' ∷ format_uint rnd));
      image = codes "sosedoff/pgweb:latest";
      exposed_ports = port_spec env (codes "8081") (codes "8081") ∷ [];
      cmd = [];
      env =
          (
            codes "PGWEB_DATABASE_URL",
            replace_all (uri env c) (codes "localhost") (codes "host.docker.internal"),
          )
          ∷ [];
      labels = (label_type, codes "pgweb") ∷ [];
    })

  -- `createDatabaseWithTemplate` without a connection opens one.
  abbrev snapshot : Config → Exec W Unit
  snapshot c = do
    conn ← db_connect sql (uri env c)
    done ← try (create_with_template sql conn default_template c.name)
    try (sql.close conn) >> pure tt

  -- Migrations, then the template, then fixtures; the template's failure is dropped.
  unfoldable pub prepare : Config → Exec W Unit
  unfolding run_migrations create_with_template db_connect apply_fixtures uri
  prepare c = do
    run_migrations sql files c.migrations_files (uri env c)
    elim c.migrations_files [
      | none ↦ pure tt
      | some [] ↦ pure tt
      | some (f ∷ fs) ↦ do
        snapped ← try (snapshot c)
        apply_fixtures sql files c.fixture_files (uri env c)
    ]

  abbrev close_ui : Option Container → Exec W Unit
  close_ui none = pure tt
  close_ui (some ui) = terminate engine ui

  -- Detached, the instance keeps running. Otherwise its containers are closed when the context is done.
  -- The instance that is left knows the id of its container, the field `containerID`.
  abbrev leave : Bool → Option Container → Container → Config → Exec W (Option (Text × Config))
  leave true ui cn c = pure (some (cn.id, c))
  leave false ui cn c = close_ui ui >> (terminate engine cn >> pure (some (cn.id, c)))

  abbrev start_ui : Config → Container → Exec W (Option Container)
  start_ui c cn =
      if c.with_ui
      then (do
        ui ← try (run_ui c)
        elim ui [ ok ui ↦ pure (some ui) | err e ↦ try (terminate engine cn) >> raise e ])
      else pure none

  -- `Start`; `none` is a wait that still runs.
  unfoldable pub start : ℕ → Bool → Config → Exec W (Option (Text × Config))
  unfolding start_using_docker prepare run_ui terminate
  start ticks detach c = do
    started ← start_using_docker ticks c
    elim started [
      | none ↦ pure none
      | some (cn, c') ↦ do prepare c'; ui ← start_ui c' cn; leave detach ui cn c'
    ]

module _ {W : Type 0} (engine : Engine W) where
  -- `Stop`, for the container of the field `containerID`
  unfoldable pub stop : Text → Exec W Unit
  unfolding terminate_by_id
  stop container_id = terminate_by_id engine container_id

  unfoldable pub instances : Text → Exec W (List Info)
  unfolding instances_of
  instances label = instances_of engine type_postgres label
