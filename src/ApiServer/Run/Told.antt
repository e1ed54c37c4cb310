-- ===== src/ApiServer/Run/Told.antt =====
-- container.go and server.go: what the server in a container knows of the instances.
use dbctl.Base.{
  ℕ, ◌≡◌, ◌∙◌, ap, false, some, [], ◌∷◌, Text, codes, text_discrete, is_empty, arith, Bool, Exec,
  ok,
}
use dbctl.Base.Dict
use dbctl.Base.Dict.{Dict, lookup-insert}
use dbctl.Container.{Env, CreateRequest}
use dbctl.Container.Docker.{Engine}
use dbctl.Database.{Instance, find_instance, find_instances}
use dbctl.Database.FindAll.{find_instances_lem}
use dbctl.Redis.Start.{Host}
use dbctl.ApiServer.System.{System}
use dbctl.ApiServer.Create.{Server, new_server, instance_for}
use dbctl.ApiServer.Run.{server_request}

-- A process in the container of a request: it has the variables of the request, and reads JSON as it was
-- written.
pub record IsContained {W : Type 0} (sys : System W) (encode : Dict Instance → Text)
    (req : CreateRequest) (instances : Dict Instance) : Type 0 where
  pub env_given : (name : Text) → sys.env name ≡ Dict.get name req.env
  pub decoded : sys.decode_instances (encode instances) ≡ ok instances
  pub encoded : is_empty (encode instances) ≡ false

module _ {V W : Type 0} (outside : Engine V) (host : Host V) (timed_out : Exec V Bool) (env : Env)
    (encode : Dict Instance → Text) (sys : System W) where
  abbrev requested : Text → Text → Dict Instance → ℕ → ℕ → CreateRequest
  requested = server_request outside host timed_out env encode

  label_given :
      (port label : Text) (instances : Dict Instance) (now rnd : ℕ)
      → IsContained sys encode (requested port label instances now rnd) instances
      → sys.env (codes "DBCTL_LABEL") ≡ label
  unfolding server_request Dict.get text_discrete
  label_given port [] instances now rnd c = c.env_given (codes "DBCTL_LABEL")
  label_given port (x ∷ label) instances now rnd c = c.env_given (codes "DBCTL_LABEL")

  instances_given :
      (port label : Text) (instances : Dict Instance) (now rnd : ℕ)
      → IsContained sys encode (requested port label instances now rnd) instances
      → sys.env (codes "DBCTL_INSTANCES") ≡ encode instances
  unfolding server_request Dict.get text_discrete
  instances_given port [] instances now rnd c = c.env_given (codes "DBCTL_INSTANCES")
  instances_given port (x ∷ label) instances now rnd c = c.env_given (codes "DBCTL_INSTANCES")

  new_server-requested :
      (port label own_port : Text) (instances : Dict Instance) (now rnd : ℕ)
      → IsContained sys encode (requested port label instances now rnd) instances
      → new_server sys own_port []
        ≡ record { port = own_port; label = label; instances = instances }
  unfolding new_server
  new_server-requested port label own_port instances now rnd c = ground (
    arith,
    label_given port label instances now rnd c,
    instances_given port label instances now rnd c,
    c.encoded,
    c.decoded,
  )

  -- The server in a container, which cannot ask the engine, uses for a type the instance of it that was
  -- running when its container was started, and looks for others under the same label.
  pub new_server-told :
      (port label own_port t : Text) (instances : Dict Instance) (now rnd : ℕ) (i : Instance)
      (v : V) (w : W)
      → (find_instances outside label v).0 ≡ ok instances
      → IsContained sys encode (requested port label instances now rnd) instances
      → Dict.lookup t instances ≡ some i
      → ((new_server sys own_port []).label ≡ label)
        × (instance_for sys (new_server sys own_port []) t w ≡ (ok (some i), w))
        × ((u : V) × ((find_instance outside t label u).0 ≡ ok i))
  unfolding instance_for
  new_server-told port label own_port t instances now rnd i v w found c known =
      let told = new_server-requested port label own_port instances now rnd c in
      (
        ap (λ (s : Server). s.label) told,
        ap (λ s. instance_for sys s t w) told ∙ ground (arith, known),
        find_instances_lem outside label v instances t i found known,
      )
