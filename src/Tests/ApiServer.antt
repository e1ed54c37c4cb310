-- ===== src/Tests/ApiServer.antt =====
-- The server on a Redis server that keeps its keys in memory.
use dbctl.Base.{
  ◌≡◌, refl, true, false, none, [], if◌then◌else◌, Text, codes, text_eq, text_discrete, external,
  errorf, ok, err, pure, raise,
}
use dbctl.Container.Docker.{Engine}
use dbctl.Database.{Instance}
use dbctl.Files.{Files}
use dbctl.Mongo.Client.{Client}
use dbctl.Postgres.Sql.{Sql}
use dbctl.ApiServer.System.{System, Request}
use dbctl.ApiServer.Create.{CreateDbRequest, Server, create_db}
use dbctl.ApiServer.Remove.{remove_db}
use dbctl.Tests.Redis.{Memory, memory, fresh, no_env}

abbrev pub no_docker : {W : Type 0} → Engine W
no_docker = record {
  connect = raise (external (codes "no socket"));
  close = pure tt;
  image_inspect = λ image. pure tt;
  image_pull = λ image. pure 0;
  read_all = λ n. pure [];
  close_stream = λ n. pure tt;
  dial_tcp = λ addr. pure tt;
  parse_port_specs = λ specs. ok [];
  container_create = λ c. raise (errorf "no space left" []);
  container_start = λ id. pure tt;
  container_list = λ args. pure [];
  container_remove = λ id force links volumes. pure tt;
  exec_create = λ id cmd. pure [];
  exec_attach = λ id. pure 0;
}

abbrev no_sql : Sql Memory
no_sql = record {
  open_db = λ target. pure 1;
  ping = λ conn. raise (external (codes "refused"));
  close = λ conn. pure tt;
  exec = λ conn stmt args. pure tt;
  begin_tx = λ conn. pure 2;
  tx_exec = λ tx stmt. pure tt;
  rollback = λ tx. pure tt;
  commit = λ tx. pure tt;
}

abbrev pub no_mongo : {W : Type 0} → Client W
no_mongo = record {
  connect = λ target. raise (external (codes "refused"));
  ping = λ conn. pure tt;
  disconnect = λ conn. pure tt;
  drop_database = λ conn name. pure tt;
  insert_many = λ conn name collection documents. pure tt;
  decode_json = λ s. ok [];
}

abbrev empty_folders : Files Memory
empty_folders = record {
  is_dir = λ path. pure true;
  is_missing = λ path. pure false;
  abs = λ path. pure path;
  walk = λ root. pure [];
  read_file = λ path. pure [];
}

abbrev system : System Memory
system = record {
  engine = no_docker;
  redis = memory;
  sql = no_sql;
  mongo = no_mongo;
  files = empty_folders;
  env = no_env;
  sha256 = λ s. s;
  rel = λ root path. ok path;
  unix_nano = pure 5;
  mkdir_temp = λ pattern. pure pattern;
  remove_all = λ path. pure tt;
  mkdir_all = λ path. pure tt;
  open_part = λ part. pure tt;
  close_part = λ part. pure tt;
  create_file = λ path. pure 3;
  copy = λ out part. pure tt;
  close_file = λ out. pure tt;
  decode_remove = λ body. err (errorf "unexpected EOF" []);
  decode_instances = λ s. ok [];
}

abbrev server : Server
server = record { port = codes "1988"; label = []; instances = [] }

abbrev request : Text → Request
request method = record {
  method = method;
  form_value = λ name. if text_eq name (codes "type") then codes "redis" else [];
  multipart = none;
  body = [];
}

refused_status : (create_db system server (request (codes "GET")) fresh).0.status ≡ 405
unfolding create_db text_discrete
refused_status = refl

abbrev asked : CreateDbRequest
asked = record {
  db_type = codes "redis";
  migrations = [];
  fixtures = [];
  with_default_migrations = false;
  instance_port = 0;
  instance_user = [];
  instance_pass = codes "pw";
  instance_name = [];
}

abbrev labelled : Instance
labelled = record {
  id = codes "a1";
  db_type = codes "postgres";
  label = [];
  port = 5433;
  user = codes "ann";
  pass = codes "other";
  name = [];
}

abbrev unset : System Memory
unset = record system {
  decode_remove =
      λ body. ok (record { db_type = codes "redis"; uri = codes "redis://localhost:16379/3" });
}

refused_removal : (remove_db system (request (codes "DELETE")) fresh).0.status ≡ 400
unfolding remove_db text_discrete
refused_removal = refl
