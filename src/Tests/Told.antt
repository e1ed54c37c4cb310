-- ===== src/Tests/Told.antt =====
-- The API server in a container, told of the instances of the engine of the tests.
use dbctl.Base.{
  ◌≡◌, refl, List, [], ◌∷◌, Text, codes, ok, text_discrete, Exec, Bool, true, some, pure,
}
use dbctl.Base.Dict
use dbctl.Base.Dict.{Dict}
use dbctl.Container.{CreateRequest}
use dbctl.Container.Docker.{Summary}
use dbctl.Database.{Instance, find_instance, find_instances}
use dbctl.Redis.Start.{Host}
use dbctl.ApiServer.System.{System}
use dbctl.ApiServer.Create.{new_server, instance_for}
use dbctl.ApiServer.Run.{server_request}
use dbctl.ApiServer.Run.Told.{IsContained, new_server-told}
use dbctl.Tests.Docker.{docker, running}
use dbctl.Tests.Database.{found, found_redis}
use dbctl.Tests.Cluster.{Databases, prepared, no_env}
use dbctl.Tests.Sessions.{system}

abbrev instances : Dict Instance
instances = (codes "postgres", found) ∷ (codes "redis", found_redis) ∷ []

abbrev encode : Dict Instance → Text
encode d = codes "{\"postgres\": {}, \"redis\": {}}"

abbrev Summaries : Type 0
Summaries = List Summary

abbrev no_timeout : Exec Summaries Bool
no_timeout = pure true

abbrev host : Host Summaries
host = record { random = pure 7; unix_time = pure 1700000000; available_port = pure 1031 }

abbrev asked : CreateRequest
asked = server_request docker host no_timeout no_env encode (codes "1988") [] instances 1700000000 7

abbrev contained : System Databases
contained = record system {
  env = λ name. Dict.get name asked.env;
  decode_instances = λ s. ok instances;
}

contained-IsContained : IsContained contained encode asked instances
contained-IsContained = record { env_given = λ name. refl; decoded = refl; encoded = refl }

new_server-told_example :
    ((new_server contained (codes "1988") []).label ≡ [])
    × (instance_for contained (new_server contained (codes "1988") []) (codes "postgres") prepared
        ≡ (ok (some found), prepared))
    × ((u : Summaries) × ((find_instance docker (codes "postgres") [] u).0 ≡ ok found))
unfolding find_instances dbctl.Container.list text_discrete dbctl.Net.Url.cut
    dbctl.Database.instance_labels dbctl.Base.wraps
new_server-told_example =
    new_server-told docker host no_timeout no_env encode contained (codes "1988") [] (codes "1988")
      (codes "postgres") instances 1700000000 7 found running prepared refl contained-IsContained
      refl
