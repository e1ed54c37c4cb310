-- ===== src/Tests/Containers.antt =====
-- An engine that creates containers, and one that runs on it.
use dbctl.Base.{◌≡◌, refl, List, [], ◌∷◌, codes, text_discrete, ok, pure, raise, external}
use dbctl.Container.{CreateRequest, Container, label_type, run}
use dbctl.Container.Docker.{Engine, Summary}
use dbctl.Container.Created.{IsCreated, run-IsCreated}
use dbctl.Tests.Docker.{docker}

abbrev machine : Engine (List Summary)
machine = record docker {
  dial_tcp = λ addr. raise (external (codes "connection refused"));
  parse_port_specs = λ specs. ok (
      record {
        container_port = codes "6379/tcp";
        host_ip = codes "127.0.0.1";
        host_port = codes "16379";
      }
      ∷ []);
  container_create = λ c. pure (codes "c1");
}

abbrev redis_request : CreateRequest
redis_request = record {
  name = codes "dbctl_rs_1";
  image = codes "redis:7.0.8-bullseye";
  exposed_ports = codes "127.0.0.1:16379:6379/tcp" ∷ [];
  cmd = [];
  env = [];
  labels = (label_type, codes "redis") ∷ [];
}

abbrev created : Container
created = record { id = codes "c1"; name = codes "dbctl_rs_1"; labels = [] }

run-IsCreated_example :
    IsCreated machine redis_request (codes "c1")
    × ((v : List Summary) × ((machine.container_start (codes "c1") v).0 ≡ ok tt))
unfolding text_discrete dbctl.Base.Dict.lookup run dbctl.Container.pull_image
    dbctl.Container.create_container dbctl.Container.start_container dbctl.Container.check_port
run-IsCreated_example = run-IsCreated machine redis_request [] created refl refl
