-- ===== src/Tests/Stop.antt =====
-- `dbctl stop` on the engine of the tests.
use dbctl.Base.{◌≡◌, refl, ◌≢◌, List, [], ◌∷◌, codes, text_discrete, ok, Exec}
use dbctl.Cmd.Stop.{run_stop}
use dbctl.Cmd.Stop.Run.{run_stop-removes, run_stop-removes_named}
use dbctl.Tests.Docker.{docker, docker_observed, running, running-UniqueIds, redis_one, other}

run_stop-removes_example :
    (run_stop docker (ok []) (codes "pg" ∷ []) running).1 ≡ redis_one ∷ other ∷ []
unfolding run_stop text_discrete dbctl.Container.list dbctl.Base.Dict.lookup dbctl.Net.Url.cut
    dbctl.Database.instance_labels dbctl.Container.terminate_by_id
run_stop-removes_example =
    run_stop-removes docker docker_observed [] (codes "pg") [] running running-UniqueIds refl refl

run_stop-removes_named_example :
    (run_stop docker (ok []) (codes "ci" ∷ []) running).1 ≡ redis_one ∷ other ∷ []
unfolding run_stop text_discrete dbctl.Container.list dbctl.Base.Dict.lookup dbctl.Net.Url.cut
    dbctl.Container.terminate_by_id
run_stop-removes_named_example =
    run_stop-removes_named docker docker_observed [] (codes "ci") running running-UniqueIds refl
      (λ e. cc) refl
