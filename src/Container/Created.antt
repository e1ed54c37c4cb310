-- ===== src/Container/Created.antt =====
-- What stands behind a container that `Run` gives: its ports, its labels, its creation and its start.
use mathlib.Core.Path.{subst}
use dbctl.Base.{
  ap, Result, map, codes, ◌≡◌, ◌∙◌, refl, Bool, true, false, Option, none, some, List, [], ◌∷◌, All,
  if◌then◌else◌, Text, text_eq, Error, arith, ok, err, Exec, for_each, for_each-cons, Result-cases,
  bind-ok, inl, inr, Bool-cases, defer, pure, lift, ◌>>=◌, ◌>>◌,
}
use dbctl.Base.Dict
use dbctl.Base.Dict.{Dict}
use dbctl.Net.Url
use dbctl.Container.{
  key_value, CreateRequest, Container, label_managed_by, label_dbctl, is_port_free, check_port,
  create_container, run, pull_image, start_container,
}
use dbctl.Container.Docker.{Engine, PortBinding, ContainerConfig}

lookup-insert_all :
    {V : Type 0} (k : Text) (extra d : Dict V)
    → Dict.lookup k extra ≡ none
    → Dict.lookup k (Dict.insert_all extra d) ≡ Dict.lookup k d
unfolding Dict.lookup Dict.insert_all
lookup-insert_all k [] d h = refl
lookup-insert_all k ((j, v) ∷ extra) d h = elim (Bool-cases (text_eq k j)) [
  | inl q ↦ absurd (ground (arith, q, h))
  | inr q ↦
      lookup-insert_all k extra (Dict.insert j v d) (ground (arith, q, h))
      ∙ Dict.lookup-insert k j v d
      ∙ ground (arith, q)
]

module _ {W : Type 0} (engine : Engine W) where
  -- Nobody has answered on a port, when somebody asked.
  abbrev pub IsFound : PortBinding → Type 0
  IsFound p =
      (v : W) × ((e : Error) × ((engine.dial_tcp (Url.join_host_port [] p.host_port) v).0 ≡ err e))

  check_port-IsFound : (p : PortBinding) (w : W) → (check_port engine p w).0 ≡ ok tt → IsFound p
  unfolding check_port is_port_free
  check_port-IsFound p w h =
      elim (Result-cases (engine.dial_tcp (Url.join_host_port [] p.host_port) w).0) [
        | inl (a, q) ↦ absurd (ground (arith, q, h))
        | inr (e, q) ↦ (w, (e, q))
      ]

  check_ports-IsFound :
      (ps : List PortBinding) (w : W)
      → (for_each ps (check_port engine) w).0 ≡ ok tt
      → All IsFound ps
  check_ports-IsFound [] w h = tt
  check_ports-IsFound (p ∷ ps) w h =
      let (first, later, _) = for_each-cons (check_port engine) p ps w h in
      (check_port-IsFound p w first, check_ports-IsFound ps _ later)

  -- What a container is created with.
  abbrev pub IsFor : CreateRequest → List PortBinding → ContainerConfig → Type 0
  IsFor req ports c =
      (c.name ≡ req.name)
      × (c.image ≡ req.image)
      × (c.ports ≡ ports)
      × (Dict.lookup label_managed_by c.labels ≡ some label_dbctl)

  with_client-ok :
      {A : Type 0} (m : Exec W A) (w : W) (a : A)
      → ((engine.connect >> defer engine.close m) w).0 ≡ ok a
      → (v : W) × ((m v).0 ≡ ok a)
  with_client-ok m w a h =
      let (_, (_, made)) = bind-ok engine.connect (λ _. defer engine.close m) w a h in
      ((engine.connect w).1, made)

  -- A container that is created is made of the request, on ports that were found free.
  abbrev pub IsCreated : CreateRequest → Text → Type 0
  IsCreated req id =
      (ports : List PortBinding) × ((c : ContainerConfig) × ((engine.parse_port_specs
              req.exposed_ports
            ≡ ok ports)
          × All IsFound ports
          × IsFor req ports c
          × ((v : W) × ((engine.container_create c v).0 ≡ ok id))))

  abbrev config_of : CreateRequest → List PortBinding → ContainerConfig
  config_of req ports = record {
    name = req.name;
    image = req.image;
    cmd = req.cmd;
    env = map key_value req.env;
    labels = Dict.insert_all req.labels ((label_managed_by, label_dbctl) ∷ []);
    ports = ports;
    extra_hosts = codes "host.docker.internal:host-gateway" ∷ [];
  }

  abbrev create_on : CreateRequest → List PortBinding → Exec W Text
  create_on req ports =
      for_each ports (check_port engine) >> engine.container_create (config_of req ports)

  create_container-IsCreated :
      (req : CreateRequest) (w : W) (id : Text)
      → Dict.lookup label_managed_by req.labels ≡ none
      → (create_container engine req w).0 ≡ ok id
      → IsCreated req id
  unfolding create_container Dict.lookup dbctl.Base.text_discrete
  create_container-IsCreated req w id none_given h =
      let (v, made) =
        with_client-ok (lift (engine.parse_port_specs req.exposed_ports) >>= create_on req) w id
          h in
      let (ports, (parsed, behind)) =
        bind-ok (lift (engine.parse_port_specs req.exposed_ports)) (create_on req) v id made in
      let (_, (checked, created)) =
        bind-ok (for_each ports (check_port engine))
          (λ _. engine.container_create (config_of req ports)) v id behind in
      (
        ports,
        (
          config_of req ports,
          (
            parsed,
            check_ports-IsFound ports v checked,
            (refl, refl, refl, labelled),
            ((for_each ports (check_port engine) v).1, created),
          ),
        ),
      )
    where
      labelled :
          Dict.lookup label_managed_by
            (Dict.insert_all req.labels ((label_managed_by, label_dbctl) ∷ []))
          ≡ some label_dbctl
      labelled = lookup-insert_all label_managed_by req.labels _ none_given

  start_container-ok :
      (id : Text) (w : W)
      → (start_container engine id w).0 ≡ ok tt
      → (v : W) × ((engine.container_start id v).0 ≡ ok tt)
  unfolding start_container
  start_container-ok id w h = with_client-ok (engine.container_start id) w tt h

  -- A container that `run` gives was created under its id with the name and the image of the request and
  -- the label of dbctl, on ports that were found free one by one, and it was started, when the labels of
  -- the request leave the label of dbctl alone.
  pub run-IsCreated :
      (req : CreateRequest) (w : W) (c : Container)
      → Dict.lookup label_managed_by req.labels ≡ none
      → (run engine req w).0 ≡ ok c
      → IsCreated req c.id × ((v : W) × ((engine.container_start c.id v).0 ≡ ok tt))
  unfolding run
  run-IsCreated req w c none_given h =
      let (_, (_, behind)) =
        bind-ok (pull_image engine req.image) (λ _. create_container engine req >>= start_it) w c
          h in
      let (id, (created, ended)) = bind-ok (create_container engine req) start_it _ c behind in
      let (_, (started, q)) = bind-ok (start_container engine id) (λ _. pure (made id)) _ c ended in
      let same : id ≡ c.id = ap id_of q in
      subst (λ i. IsCreated req i × ((v : W) × ((engine.container_start i v).0 ≡ ok tt))) same
        (create_container-IsCreated req _ id none_given created, start_container-ok id _ started)
    where
      made : Text → Container
      made id = record { id = id; name = req.name; labels = [] }

      start_it : Text → Exec W Container
      start_it id = start_container engine id >> pure (made id)

      id_of : Result Container → Text
      id_of (ok x) = x.id
      id_of (err e) = []
