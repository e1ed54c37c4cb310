-- ===== src/Container.antt =====
-- internal/container: models.go and docker_rest.go. The Docker engine is the parameter `Engine`.
pub mod Docker
pub mod Laws
pub mod Created
use dbctl.Base.{
  ℕ, ◌≡◌, Bool, true, false, not, ◌&&◌, Option, none, some, List, [], ◌∷◌, ◌++◌, map, if◌then◌else◌,
  Text, codes, text_eq, is_empty, trim_space, Error, errorf, panic, Result, ok, err, Exec, pure,
  raise, lift, ◌>>=◌, ◌>>◌, try, defer, for_each,
}
use dbctl.Base.Dict
use dbctl.Base.Dict.{Dict}
use dbctl.Net.Url
use Docker.{Engine, Summary, PortBinding, ContainerConfig}

abbrev pub label_type : Text
label_type = codes "dbctl_type"

abbrev pub label_custom : Text
label_custom = codes "dbctl_custom"

abbrev pub label_port : Text
label_port = codes "dbctl_port"

abbrev pub label_user : Text
label_user = codes "dbctl_user"

abbrev pub label_pass : Text
label_pass = codes "dbctl_pass"

abbrev pub label_name : Text
label_name = codes "dbctl_name"

abbrev pub env_listen : Text
env_listen = codes "DBCTL_LISTEN"

abbrev pub loopback_address : Text
loopback_address = codes "127.0.0.1"

abbrev pub label_managed_by : Text
label_managed_by = codes "managed_by"

abbrev pub label_dbctl : Text
label_dbctl = codes "dbctl"

-- `os.Getenv`
abbrev pub Env : Type 0
Env = Text → Text

unfoldable pub listen_address : Env → Text
unfolding trim_space
listen_address env =
    let addr = trim_space (env env_listen) in if is_empty addr then loopback_address else addr

unfoldable pub is_public : Env → Bool
unfolding listen_address
is_public env =
    let addr = listen_address env in
    not (text_eq addr loopback_address)
    && (not (text_eq addr (codes "localhost")) && not (text_eq addr (codes "::1")))

unfoldable pub port_spec : Env → Text → Text → Text
unfolding listen_address
port_spec env host_port container_port =
    listen_address env ++ (b':' ∷ (host_port ++ (b':' ∷ container_port)))

pub record Container : Type 0 where
  pub id : Text
  pub name : Text
  pub labels : Dict Text

pub record CreateRequest : Type 0 where
  pub name : Text
  pub image : Text
  pub exposed_ports : List Text
  pub cmd : List Text
  pub env : Dict Text
  pub labels : Dict Text

-- `fmt.Sprintf("%s=%s", k, v)`
abbrev pub key_value : Text × Text → Text
key_value (k, v) = k ++ (b'=' ∷ v)

unfoldable pub filter_args : Dict Text → List Text
filter_args labels = key_value (label_managed_by, label_dbctl) ∷ map key_value labels

first_name : List Text → Result Text
first_name [] = err (panic "index out of range")
first_name (n ∷ names) = ok n

unfoldable pub to_containers : List Summary → Result (List Container)
unfolding first_name
to_containers [] = ok []
to_containers (c ∷ cs) = elim (first_name c.names) [
  | err e ↦ err e
  | ok n ↦ elim (to_containers cs) [
    | err e ↦ err e
    | ok out ↦ ok (record { id = c.id; name = n; labels = c.labels } ∷ out)
  ]
]

module _ {W : Type 0} (engine : Engine W) where
  open engine use {
    connect, close, image_inspect, image_pull, read_all, close_stream, dial_tcp, container_create,
    container_start, container_list, container_remove, exec_create, exec_attach, parse_port_specs,
  }

  -- `getDockerClient` with the `defer closer()` that follows it everywhere
  abbrev with_client : {A : Type 0} → Exec W A → Exec W A
  with_client m = connect >> defer close m

  unfoldable pub pull_image : Text → Exec W Unit
  pull_image image = with_client (do
    local ← try (image_inspect image)
    elim local [
      | ok _ ↦ pure tt
      | err _ ↦ do
        stream ← image_pull image
        defer (close_stream stream) (read_all stream >> pure tt)
    ])

  unfoldable pub is_port_free : Text → Exec W Bool
  unfolding Url.join_host_port
  is_port_free port = do
    conn ← try (dial_tcp (Url.join_host_port [] port))
    elim conn [ ok _ ↦ pure false | err _ ↦ pure true ]

  unfoldable pub check_port : PortBinding → Exec W Unit
  unfolding is_port_free
  check_port port = do
    free ← is_port_free port.host_port
    if free then pure tt else raise (errorf "port: '%s' is already taken" (port.host_port ∷ []))

  unfoldable pub create_container : CreateRequest → Exec W Text
  unfolding check_port for_each Dict.insert_all
  create_container params = with_client (do
    ports ← lift (parse_port_specs params.exposed_ports)
    for_each ports check_port
    container_create (record {
      name = params.name;
      image = params.image;
      cmd = params.cmd;
      env = map key_value params.env;
      labels = Dict.insert_all params.labels ((label_managed_by, label_dbctl) ∷ []);
      ports = ports;
      extra_hosts = codes "host.docker.internal:host-gateway" ∷ [];
    }))

  unfoldable pub start_container : Text → Exec W Unit
  start_container id = with_client (container_start id)

  -- On a failed start the source returns the container beside the error; no caller looks at it.
  unfoldable pub run : CreateRequest → Exec W Container
  unfolding pull_image create_container start_container
  run req = do
    pull_image req.image
    id ← create_container req
    start_container id
    pure (record { id = id; name = req.name; labels = [] })

  unfoldable pub remove_container : Text → Exec W Unit
  remove_container id = with_client (container_remove id true false true)

  unfoldable pub terminate_by_id : Text → Exec W Unit
  unfolding remove_container
  terminate_by_id id = remove_container id

  unfoldable pub terminate : Container → Exec W Unit
  unfolding terminate_by_id
  terminate c = terminate_by_id c.id

  unfoldable pub list : Dict Text → Exec W (List Container)
  unfolding filter_args to_containers
  list labels =
      with_client
        (do containers ← container_list (filter_args labels); lift (to_containers containers))

  unfoldable pub create_exec : Text → List Text → Exec W Text
  create_exec id cmd = with_client (exec_create id cmd)

  unfoldable pub start_exec : Text → Exec W Text
  start_exec exec_id =
      with_client (do stream ← exec_attach exec_id; defer (close_stream stream) (read_all stream))

  unfoldable pub run_exec : Text → List Text → Exec W Text
  unfolding create_exec start_exec
  run_exec id cmd = do exec_id ← create_exec id cmd; start_exec exec_id
