-- ===== src/Tests/Database.antt =====
-- Instances found among the containers of the tests.
use dbctl.Base.{◌≡◌, refl, [], ◌∷◌, codes, text_discrete, ok, arith}
use dbctl.Container.{list}
use dbctl.Database.{Instance, instance_of, find_instance, instance_labels}
use dbctl.Database.Laws.{instance_of-started, started}
use dbctl.Database.Find.{find_instance_unique}
use dbctl.Database.Selection.{is_instance}
use dbctl.Container.Laws.{summary_ids}
use dbctl.Base.{keep}
use dbctl.Tests.Docker.{docker, docker_observed, running}

instance_of-started_example :
    instance_of (codes "redis") (
      started
        (codes "a1")
        (codes "rs")
        (codes "redis")
        (codes "ann")
        (codes "pw")
        []
        16379
        (codes "ci"))
    ≡ ok (record {
      id = codes "a1";
      db_type = codes "redis";
      label = codes "ci";
      port = 16379;
      user = codes "ann";
      pass = codes "pw";
      name = [];
    })
instance_of-started_example =
    instance_of-started (codes "a1") (codes "rs") (codes "redis") (codes "ann") (codes "pw") []
      (codes "ci") 16379 (omega arith)

abbrev pub found : Instance
found = record {
  id = codes "a1";
  db_type = codes "postgres";
  label = codes "ci";
  port = 5433;
  user = codes "ann";
  pass = [];
  name = [];
}

find_instance_unique_example :
    summary_ids (keep (is_instance (codes "postgres") []) running) ≡ codes "a1" ∷ []
unfolding find_instance list text_discrete dbctl.Net.Url.cut instance_labels
find_instance_unique_example =
    find_instance_unique docker docker_observed (codes "postgres") [] running found refl

abbrev pub found_redis : Instance
found_redis = record {
  id = codes "b2";
  db_type = codes "redis";
  label = [];
  port = 0;
  user = [];
  pass = [];
  name = [];
}
