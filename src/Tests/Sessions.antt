-- ===== src/Tests/Sessions.antt =====
-- The API server in front of a PostgreSQL server that reads its statements.
use dbctl.Base.{
  ℕ, ◌≡◌, refl, [], ◌∷◌, none, some, if◌then◌else◌, Text, codes, text_eq, trim_prefix, external,
  errorf, ok, err, pure, raise,
}
use dbctl.Net.Url
use dbctl.Net.Url.{Url}
use dbctl.Postgres
use dbctl.Postgres.{Config}
use dbctl.Redis.Server.{Server}
use dbctl.Postgres.Cluster.Removal.{Dropped}
use dbctl.ApiServer.System.{System, Request, RemoveDbRequest}
use dbctl.ApiServer.Create as Create
use dbctl.ApiServer.Remove as Remove
use dbctl.ApiServer.Remove.Gone.{named_by, remove_db-answered}
use dbctl.Tests.ApiServer.{no_docker, no_mongo}
use dbctl.Tests.Cluster.{
  Databases, server, server_cluster, migrations, digest, relative_to, prepared, at_five, no_env,
  made,
}

abbrev pub no_redis : Server Databases
no_redis = record {
  dial = λ target. raise (external (codes "refused"));
  close = pure tt;
  config_get = λ key. pure [];
  setnx = λ k v. pure 0;
  select = λ n. pure tt;
  flushdb = pure tt;
  del = λ k. pure tt;
  eval = λ script. pure tt;
  command = λ name args. pure tt;
  acl = λ args. pure tt;
}

abbrev pub removal : RemoveDbRequest
removal = record { db_type = codes "postgres"; uri = made }

abbrev pub system : System Databases
system = record {
  engine = no_docker;
  redis = no_redis;
  sql = server;
  mongo = no_mongo;
  files = migrations;
  env = no_env;
  sha256 = digest;
  rel = relative_to;
  unix_nano = at_five;
  mkdir_temp = λ pattern. pure pattern;
  remove_all = λ path. pure tt;
  mkdir_all = λ path. pure tt;
  open_part = λ part. pure tt;
  close_part = λ part. pure tt;
  create_file = λ path. pure 3;
  copy = λ out part. pure tt;
  close_file = λ out. pure tt;
  decode_remove = λ body. ok removal;
  decode_instances = λ s. ok [];
}

abbrev api : Create.Server
api = record { port = codes "1988"; label = []; instances = [] }

abbrev request : Text → Request
request method = record {
  method = method;
  form_value = λ name. if text_eq name (codes "type") then codes "postgres" else [];
  multipart = none;
  body = [];
}

abbrev created_one : Databases
created_one = (Create.create_db system api (request (codes "POST")) prepared).1

remove_db-answered_example :
    (c : Config) × ((u : Url) × ((Postgres.new (Postgres.with_uri made ∷ []) ≡ ok c)
        × (Url.parse made ≡ ok u)
        × Dropped server server_cluster no_env
            (named_by system server_cluster c u)
            created_one
            (Remove.remove_db system (request (codes "DELETE")) created_one).1))
unfolding Remove.remove_db dbctl.Base.text_discrete dbctl.Postgres.Cluster.Statement.read_statement
    dbctl.Postgres.Cluster.server_of
remove_db-answered_example =
    remove_db-answered system server_cluster (request (codes "DELETE")) removal created_one refl
      refl refl
