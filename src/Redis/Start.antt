-- ===== src/Redis/Start.antt =====
-- redis.go: creating a database, and running an instance in a container.
pub mod Laws
pub mod Create
use dbctl.Base.{
  ℕ, zero, suc, ◌+◌, ◌%◌, ◌^◌, ◌≡◌, Bool, true, false, not, ◌&&◌, ◌||◌, Option, none, some, List,
  [], ◌∷◌, ◌++◌, if◌then◌else◌, ◌==◌, Text, codes, text_eq, is_empty, Error, errorf, wrap, external,
  panic, is_exactly, deadline_exceeded, Result, ok, err, Exec, pure, raise, lift, ◌>>=◌, ◌>>◌, try,
  defer, with_context, for_each,
}
use dbctl.Base.Decimal.{ℤ, pos, format_uint}
use dbctl.Base.Dict
use dbctl.Net.Url
use dbctl.Container.{
  Container, Env, CreateRequest, run, terminate, terminate_by_id, list, port_spec, label_type,
  label_custom,
}
use dbctl.Container.Docker.{Engine}
use dbctl.Database.{Info, start_labels, instances_of, type_redis}
use dbctl.Database.Host.{host_uri}
use dbctl.Files.{Files}
use dbctl.Redis.{Config, Setting, new, with_host, uri, no_auth_uri, admin_uri, get_redis_image}
use dbctl.Redis.Server.{Server}
use dbctl.Redis.Index.{acquire_db_index}
use dbctl.Redis.Fixtures.{get_files, apply_fixtures}

-- What the world gives an instance beside the engine: a random number below 20, the time in seconds,
-- and a free port.
pub record Host (W : Type 0) : Type 0 where
  pub random : Exec W ℕ
  pub unix_time : Exec W ℕ
  pub available_port : Exec W ℕ

module _ {W : Type 0} (env : Env) (redis : Server W) (files : Files W) where
  unfoldable pub apply_fixtures_to : Text → List Text → Exec W Unit
  unfolding apply_fixtures
  apply_fixtures_to target [] = pure tt
  apply_fixtures_to target (f ∷ fs) =
      redis.dial target >> defer redis.close (apply_fixtures redis files (f ∷ fs))

  -- `fixtures` is the field of the request; a request that is missing reads as an empty path.
  unfoldable pub create_db : Config → Text → Exec W Text
  unfolding acquire_db_index apply_fixtures_to get_files uri admin_uri new with_host host_uri
  create_db c fixtures =
      redis.dial (admin_uri env c)
      >> defer redis.close (do
        index ← acquire_db_index redis
        new_db ← lift (new (with_host c.user c.pass (pos index) c.port ∷ []))
        if is_empty fixtures then pure tt else (do
          fs ← with_context (wrap "read fixtures failed: %w" []) (get_files files fixtures)
          apply_fixtures_to (uri env new_db) fs)
        pure (host_uri env (uri env new_db)))

  -- The loop of `WaitForStart` on fuel, one unit for a tick; `none` is a loop that still runs.
  unfoldable pub wait_for_start : ℕ → Config → Exec W (Option (Result Unit))
  unfolding no_auth_uri
  wait_for_start zero c = pure none
  wait_for_start (suc ticks) c = do
    conn ← try (redis.dial (no_auth_uri env c))
    elim conn [
      | ok _ ↦ redis.close >> pure (some (ok tt))
      | err e ↦ elim (is_exactly deadline_exceeded e) [
        | true ↦ pure (some (err e))
        | false ↦ wait_for_start ticks c
      ]
    ]

  abbrev acl_args : Config → List Text
  acl_args c =
      codes "SETUSER"
      ∷ c.user
      ∷ ((if is_empty c.pass then [] else codes "on" ∷ (b'>' ∷ c.pass) ∷ [])
          ++ (codes "~*" ∷ codes "&*" ∷ codes "+@all" ∷ []))

  unfoldable pub set_auth : Config → Text → Exec W Unit
  set_auth c target =
      if is_empty c.user && is_empty c.pass
      then pure tt
      else redis.dial target >> redis.acl (acl_args c)

-- `startUsingDocker` returns a closer, which may be nil, and an error, which may be nil.
pub record Started : Type 0 where
  pub closer : Option Container
  pub failure : Option Error
  pub config : Config

abbrev failed : Config → Error → Started
failed c e = record { closer = none; failure = some e; config = c }

module _ {W : Type 0} (engine : Engine W) where
  -- Calling a closer that is nil is a run time panic.
  abbrev pub call_closer : Option Container → Exec W Unit
  call_closer none = raise (panic "invalid memory address or nil pointer dereference")
  call_closer (some c) = terminate engine c

  module _ (host : Host W) (env : Env) (redis : Server W) (files : Files W) where
    -- The request for the container of an instance.
    unfoldable pub create_request : Config → ℕ → ℕ → CreateRequest
    unfolding get_redis_image port_spec format_uint start_labels
    create_request c now rnd = record {
      name = codes "dbctl_rs_" ++ (format_uint now ++ (b'_' ∷ format_uint rnd));
      image = get_redis_image c.version;
      exposed_ports = port_spec env (format_uint c.port) (codes "6379/tcp") ∷ [];
      cmd = codes "redis-server" ∷ codes "--save" ∷ [] ∷ codes "--databases" ∷ codes "2000" ∷ [];
      env = [];
      labels = start_labels type_redis c.user c.pass [] c.port c.label;
    }

    -- `if port == 0 { port = GetAvailablePort() }`
    abbrev pick_port : Config → Exec W Config
    pick_port c =
        if c.port == 0
        then (do port ← host.available_port; pure (record c { port = port % 2 ^ 32 }))
        else pure c

    -- The steps behind the creation of the container: waiting, then setting the password.
    abbrev finish : ℕ → Config → Container → Exec W (Option Started)
    finish ticks c cn = do
      waited ← wait_for_start env redis files ticks c
      elim waited [
        | none ↦ pure none
        | some (err e) ↦ pure (some (failed c e))
        | some (ok _) ↦ do
          auth ← try (set_auth env redis files c (no_auth_uri env c))
          pure (
              some (record {
                closer = some cn;
                failure = elim auth [ ok _ ↦ none | err e ↦ some e ];
                config = c;
              }))
      ]

    unfoldable pub start_using_docker : ℕ → Config → Exec W (Option Started)
    unfolding create_request run wait_for_start set_auth
    start_using_docker ticks c = do
      rnd ← try host.random
      elim rnd [
        | err e ↦ pure (some (failed c e))
        | ok rnd ↦ do
          c' ← pick_port c
          now ← host.unix_time
          cn ← try (run engine (create_request c' now rnd))
          elim cn [ err e ↦ pure (some (failed c' e)) | ok cn ↦ finish ticks c' cn ]
      ]

    -- What the closer returns on a failure is dropped, but not a panic in calling it.
    abbrev give_up : Option Container → Error → Exec W (Option Config)
    give_up none e = raise (panic "invalid memory address or nil pointer dereference")
    give_up (some cn) e = try (terminate engine cn) >> raise e

    -- Detached, the instance keeps running. Otherwise it is closed when the context is done.
    abbrev leave : Bool → Option Container → Config → Exec W (Option Config)
    leave detach closer c =
        let c' : Config = record c { detached = detach } in
        elim detach [ true ↦ pure (some c') | false ↦ call_closer closer >> pure (some c') ]

    -- `Start`; `none` is a wait that still runs.
    unfoldable pub start : ℕ → Bool → Config → Exec W (Option Config)
    unfolding start_using_docker apply_fixtures_to uri terminate
    start ticks detach c = do
      started ← start_using_docker ticks c
      elim started [
        | none ↦ pure none
        | some s ↦ elim s.failure [
          | some e ↦ give_up s.closer e
          | none ↦ do
            applied ←
                try (apply_fixtures_to env redis files (uri env s.config) s.config.fixture_files)
            elim applied [ err e ↦ give_up s.closer e | ok _ ↦ leave detach s.closer s.config ]
        ]
      ]

  -- `Stop` terminates the container that the field `containerID` names, which nothing ever sets.
  unfoldable pub stop : Exec W Unit
  unfolding terminate_by_id
  stop = terminate_by_id engine []

  unfoldable pub instances : Text → Exec W (List Info)
  unfolding instances_of
  instances label = instances_of engine type_redis label
