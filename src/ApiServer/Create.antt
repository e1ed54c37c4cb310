-- ===== src/ApiServer/Create.antt =====
-- server.go: the handler that creates a database.
pub mod Laws
pub mod Served
pub mod Made
use dbctl.Base.{
  ℕ, ◌≡◌, Bool, true, false, not, ◌&&◌, ◌||◌, Option, none, some, List, [], ◌∷◌, ◌++◌,
  if◌then◌else◌, ◌==◌, Text, codes, text_eq, is_empty, trim_space, Error, errorf, Result, ok, err,
  Exec, pure, raise, lift, ◌>>=◌, ◌>>◌, try, defer, then_result,
}
use dbctl.Base.Decimal.{ℤ, pos, parse_uint}
use dbctl.Base.Dict
use dbctl.Base.Dict.{Dict}
use dbctl.Container.{Env}
use dbctl.Database.{Instance, find_instance, type_postgres, type_redis, type_mongodb}
use dbctl.Utils.{one_of}
use dbctl.Postgres
use dbctl.Postgres.Create as PostgresCreate
use dbctl.Redis
use dbctl.Redis.Start as RedisStart
use dbctl.Mongo
use dbctl.Mongo.Admin as MongoAdmin
use dbctl.ApiServer.System.{System, Request, Response, failure, created}
use dbctl.ApiServer.Upload.{read_multipart_files}

-- `CreateDBRequest`, without the host that nothing reads; its field `Type` is `db_type` here.
pub record CreateDbRequest : Type 0 where
  pub db_type : Text
  pub migrations : Text
  pub fixtures : Text
  pub with_default_migrations : Bool
  pub instance_port : ℕ
  pub instance_user : Text
  pub instance_pass : Text
  pub instance_name : Text

-- The label that the server scopes its lookups to, and the instances that it was told of.
pub record Server : Type 0 where
  pub port : Text
  pub label : Text
  pub instances : Dict Instance

abbrev or_no_instances : Result (Dict Instance) → Dict Instance
or_no_instances (ok d) = d
or_no_instances (err e) = []

unfoldable pub new_server : {W : Type 0} → System W → Text → Text → Server
new_server sys port label = record {
  port = port;
  label = if is_empty label then sys.env (codes "DBCTL_LABEL") else label;
  instances =
      if is_empty (sys.env (codes "DBCTL_INSTANCES"))
      then []
      else or_no_instances (sys.decode_instances (sys.env (codes "DBCTL_INSTANCES")));
}

unfoldable pub validate_type : Text → Result (Unit {0})
unfolding one_of
validate_type db_type =
    if one_of db_type (type_postgres ∷ type_redis ∷ type_mongodb ∷ [])
    then ok tt
    else err (
        errorf "type %q is not valid, valid options are %s, %s or %s"
          (db_type ∷ type_postgres ∷ type_redis ∷ type_mongodb ∷ []))

-- `strconv.ParseBool` of the trimmed text, where an error counts as false
unfoldable pub is_true : Text → Bool
unfolding trim_space one_of
is_true v =
    one_of (trim_space v)
      (codes "1" ∷ codes "t" ∷ codes "T" ∷ codes "true" ∷ codes "TRUE" ∷ codes "True" ∷ [])

abbrev or_text : Text → Text → Text
or_text given other = if is_empty given then other else given

abbrev or_port : ℕ → ℕ → ℕ
or_port given other = if given == 0 then other else given

-- What `applyInstance` takes from an instance.
unfoldable pub fill : Option Instance → CreateDbRequest → CreateDbRequest
fill none r = r
fill (some i) r = record r {
  instance_port = or_port r.instance_port i.port;
  instance_user = or_text r.instance_user i.user;
  instance_pass = or_text r.instance_pass i.pass;
  instance_name = or_text r.instance_name i.name;
}

-- The configuration of a type for a request, its defaults filled in.
unfoldable pub postgres_config : CreateDbRequest → Result Postgres.Config
unfolding Postgres.new Postgres.with_host
postgres_config r = Postgres.new (
    Postgres.with_host (or_text r.instance_user Postgres.default_user)
      (or_text r.instance_pass Postgres.default_pass)
      (or_text r.instance_name Postgres.default_name)
      (or_port r.instance_port Postgres.default_port)
    ∷ [])

unfoldable pub redis_config : CreateDbRequest → Result Redis.Config
unfolding Redis.new Redis.with_host
redis_config r = Redis.new (
    Redis.with_host (or_text r.instance_user Redis.default_user)
      (or_text r.instance_pass Redis.default_pass) (pos 0)
      (or_port r.instance_port Redis.default_port)
    ∷ [])

unfoldable pub mongo_config : CreateDbRequest → Result Mongo.Config
unfolding Mongo.new Mongo.with_host
mongo_config r = Mongo.new (
    Mongo.with_host (or_text r.instance_user Mongo.default_user)
      (or_text r.instance_pass Mongo.default_pass) (or_text r.instance_name Mongo.default_name)
      (or_port r.instance_port Mongo.default_port)
    ∷ [])

abbrev port_field : Text → Result ℕ → Result ℕ
port_field p (ok n) = ok n
port_field p (err e) = err (errorf "instance_port is not a valid port number: %q" (p ∷ []))

-- The fields of the form, with the directories still empty. That `FormValue` reads the body and may put
-- large parts of it into files is not seen in the world.
unfoldable pub read_form : Request → Result CreateDbRequest
unfolding parse_uint is_true
read_form r =
    let p = r.form_value (codes "instance_port") in
    then_result (if is_empty p then ok 0 else port_field p (parse_uint 32 p)) λ port. ok (record {
      db_type = r.form_value (codes "type");
      migrations = [];
      fixtures = [];
      with_default_migrations = is_true (r.form_value (codes "with_default_migrations"));
      instance_port = port;
      instance_user = r.form_value (codes "instance_user");
      instance_pass = r.form_value (codes "instance_pass");
      instance_name = r.form_value (codes "instance_name");
    })

-- The checks of a request, with the status that a failed one is answered with.
abbrev require_type : CreateDbRequest → Result CreateDbRequest
require_type req =
    if is_empty req.db_type
    then err (errorf "type is required" [])
    else then_result (validate_type req.db_type) (λ _. ok req)

abbrev pub json_error : ℕ → Error → Response
json_error status e = record { status = status; body = failure e }

abbrev pub respond : Result Text → Response
respond (ok uri) = record { status = 200; body = created uri }
respond (err e) = json_error 500 e

module _ {W : Type 0} (sys : System W) where
  open sys use {
    engine, redis, sql, mongo, files, env, sha256, rel, unix_nano, mkdir_temp, remove_all,
  }

  unfoldable pub create_postgres_db : CreateDbRequest → Exec W Text
  unfolding postgres_config PostgresCreate.create_db
  create_postgres_db r = do
    c ← lift (postgres_config r)
    PostgresCreate.create_db sql files sha256 rel env unix_nano c (record {
      migrations = r.migrations;
      fixtures = r.fixtures;
      with_default_migrations = r.with_default_migrations;
    })

  unfoldable pub create_redis_db : CreateDbRequest → Exec W Text
  unfolding redis_config RedisStart.create_db
  create_redis_db r = do
    c ← lift (redis_config r)
    RedisStart.create_db env redis files c r.fixtures

  unfoldable pub create_mongo_db : CreateDbRequest → Exec W Text
  unfolding mongo_config MongoAdmin.create_db
  create_mongo_db r = do
    c ← lift (mongo_config r)
    MongoAdmin.create_db mongo engine files env unix_nano c r.migrations r.fixtures

  -- The `switch` over the type; another type is refused before.
  unfoldable pub create_of_type : CreateDbRequest → Exec W Text
  unfolding create_postgres_db create_redis_db create_mongo_db
  create_of_type r =
      if text_eq r.db_type type_postgres
      then create_postgres_db r
      else if text_eq r.db_type type_redis
      then create_redis_db r
      else if text_eq r.db_type type_mongodb
      then create_mongo_db r
      else pure []

  abbrev found_or_none : Result Instance → Option Instance
  found_or_none (ok i) = some i
  found_or_none (err e) = none

  unfoldable pub instance_for : Server → Text → Exec W (Option Instance)
  unfolding Dict.lookup find_instance
  instance_for s db_type = elim (Dict.lookup db_type s.instances) [
    | some i ↦ pure (some i)
    | none ↦ do found ← try (find_instance engine db_type s.label); pure (found_or_none found)
  ]

  unfoldable pub apply_instance : Server → CreateDbRequest → Exec W CreateDbRequest
  unfolding instance_for fill
  apply_instance s r = do i ← instance_for s r.db_type; pure (fill i r)

  -- What the handler does once the request has passed its checks, and the directories are made.
  unfoldable pub serve_in : Server → Request → CreateDbRequest → Text → Text → Exec W Text
  unfolding read_multipart_files apply_instance create_of_type
  serve_in s r req migrations_dir fixtures_dir = do
    read_multipart_files sys r (codes "migrations") migrations_dir
    read_multipart_files sys r (codes "fixtures") fixtures_dir
    req' ← apply_instance s (record req { migrations = migrations_dir; fixtures = fixtures_dir })
    create_of_type req'

  unfoldable pub serve_migrations : Server → Request → CreateDbRequest → Text → Exec W Text
  unfolding serve_in
  serve_migrations s r req migrations_dir = do
    fixtures_dir ← mkdir_temp (codes "fixtures-*")
    defer (remove_all fixtures_dir) (serve_in s r req migrations_dir fixtures_dir)

  unfoldable pub serve_create : Server → Request → CreateDbRequest → Exec W Text
  unfolding serve_migrations
  serve_create s r req = do
    migrations_dir ← mkdir_temp (codes "migrations-*")
    defer (remove_all migrations_dir) (serve_migrations s r req migrations_dir)

  -- The handler: a response, and the world behind it.
  unfoldable pub create_db : Server → Request → W → Response × W
  unfolding read_form validate_type serve_create
  create_db s r w =
      if not (text_eq r.method (codes "POST"))
      then (json_error 405 (errorf "method not allowed" []), w)
      else elim (then_result (read_form r) require_type) [
        | err e ↦ (json_error 400 e, w)
        | ok req ↦ (respond (serve_create s r req w).0, (serve_create s r req w).1)
      ]
