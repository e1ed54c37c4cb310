-- ===== src/Tests/Docker.antt =====
-- An engine whose world is the list of its running containers, and containers to run on it.
use dbctl.Base.{
  refl, sym, ap, Result, not, List, [], ◌∷◌, codes, text_eq, keep, ok, err, errorf, pure, raise,
  arith,
}
use dbctl.Container.{
  label_managed_by, label_dbctl, label_type, label_custom, label_port, label_user,
}
use dbctl.Container.Docker.{Engine, Summary, Observed, selects}
use dbctl.Container.Laws.{UniqueIds}

abbrev pub docker : Engine (List Summary)
docker = record {
  connect = pure tt;
  close = pure tt;
  image_inspect = λ image. pure tt;
  image_pull = λ image. pure 0;
  read_all = λ n. pure [];
  close_stream = λ n. pure tt;
  dial_tcp = λ addr. pure tt;
  parse_port_specs = λ specs. ok [];
  container_create = λ c. raise (errorf "no space left" []);
  container_start = λ id. pure tt;
  container_list = λ args w. (ok (keep (selects args) w), w);
  container_remove = λ id force links volumes w. (ok tt, keep (λ c. not (text_eq c.id id)) w);
  exec_create = λ id cmd. pure [];
  exec_attach = λ id. pure 0;
}

abbrev from_ok : Result (List Summary) → List Summary
from_ok (ok l) = l
from_ok (err e) = []

abbrev pub docker_observed : Observed docker
docker_observed = record {
  containers = λ w. w;
  names = λ id c. text_eq c.id id;
  names_id = λ w c d _ _. refl;
  connect_keeps = λ w. refl;
  close_keeps = λ w. refl;
  list_keeps = λ args w. refl;
  list_selects = λ args w l h. sym (ap from_ok h);
  remove_removes = λ id w h. refl;
}

abbrev pub pg_one : Summary
pg_one = record {
  id = codes "a1";
  names = codes "/pg" ∷ [];
  labels =
      (label_managed_by, label_dbctl)
      ∷ (label_type, codes "postgres")
      ∷ (label_custom, codes "ci")
      ∷ (label_port, codes "5433")
      ∷ (label_user, codes "ann")
      ∷ [];
}

abbrev pub redis_one : Summary
redis_one = record {
  id = codes "b2";
  names = codes "/rs" ∷ [];
  labels = (label_managed_by, label_dbctl) ∷ (label_type, codes "redis") ∷ [];
}

abbrev pub other : Summary
other = record { id = codes "c3"; names = codes "/web" ∷ []; labels = [] }

abbrev pub running : List Summary
running = pg_one ∷ redis_one ∷ other ∷ []

pub running-UniqueIds : UniqueIds running
running-UniqueIds c d mc md e = ground (arith, mc, md, e)
