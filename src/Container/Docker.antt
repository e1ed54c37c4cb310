-- ===== src/Container/Docker.antt =====
-- The Docker engine behind internal/container: the calls of its client library, and what the
-- program relies on of them.
use dbctl.Base.{
  ℕ, ◌≡◌, Bool, true, false, not, Option, none, some, List, Text, text_eq, is_empty, all_of, keep,
  Elem, Result, ok, Exec,
}
use dbctl.Base.Dict
use dbctl.Base.Dict.{Dict}
use dbctl.Net.Url

-- What `ContainerList` reports of a container.
pub record Summary : Type 0 where
  pub id : Text
  pub names : List Text
  pub labels : Dict Text

-- A published port, as `nat.ParsePortSpecs` reads it.
pub record PortBinding : Type 0 where
  pub container_port : Text
  pub host_ip : Text
  pub host_port : Text

-- The configuration that `ContainerCreate` is given.
pub record ContainerConfig : Type 0 where
  pub name : Text
  pub image : Text
  pub cmd : List Text
  pub env : List Text
  pub labels : Dict Text
  pub ports : List PortBinding
  pub extra_hosts : List Text

-- The calls, over an unknown world. A stream is known by a number.
pub record Engine (W : Type 0) : Type 0 where
  pub connect : Exec W Unit
  pub close : Exec W Unit
  pub image_inspect : Text → Exec W Unit
  pub image_pull : Text → Exec W ℕ
  pub read_all : ℕ → Exec W Text
  pub close_stream : ℕ → Exec W Unit
  pub dial_tcp : Text → Exec W Unit
  pub parse_port_specs : List Text → Result (List PortBinding)
  pub container_create : ContainerConfig → Exec W Text
  pub container_start : Text → Exec W Unit
  pub container_list : List Text → Exec W (List Summary)
  -- the options `Force`, `RemoveLinks` and `RemoveVolumes`
  pub container_remove : Text → Bool → Bool → Bool → Exec W Unit
  pub exec_create : Text → List Text → Exec W Text
  pub exec_attach : Text → Exec W ℕ

abbrev holds : Option Text → Option Text → Bool
holds (some v) (some x) = text_eq v x
holds (some v) none = is_empty v
holds none x = false

-- The filter `label=key=value` passes a container whose label `key` is `value`.
abbrev pub has_label : Dict Text → Text → Bool
has_label labels arg = holds (Dict.lookup (Url.cut b'=' arg).0 labels) (Url.cut b'=' arg).1

abbrev pub selects : List Text → Summary → Bool
selects args c = all_of (has_label c.labels) args

-- Documented behaviour: a listing reports the running containers that pass every filter, and a
-- removal that succeeds takes away the containers that its argument names, and no other. The id of a
-- running container names no other running container. Opening and closing a client touches no container.
pub record Observed {W : Type 0} (e : Engine W) : Type 0 where
  pub containers : W → List Summary
  pub names : Text → Summary → Bool
  pub names_id :
      (w : W) (c d : Summary)
      → Elem c (containers w)
      → Elem d (containers w)
      → names d.id c ≡ text_eq c.id d.id
  pub connect_keeps : (w : W) → containers (e.connect w).1 ≡ containers w
  pub close_keeps : (w : W) → containers (e.close w).1 ≡ containers w
  pub list_keeps :
      (args : List Text) (w : W) → containers (e.container_list args w).1 ≡ containers w
  pub list_selects :
      (args : List Text) (w : W) (l : List Summary)
      → (e.container_list args w).0 ≡ ok l
      → l ≡ keep (selects args) (containers w)
  pub remove_removes :
      (id : Text) (w : W)
      → (e.container_remove id true false true w).0 ≡ ok tt
      → containers (e.container_remove id true false true w).1
        ≡ keep (λ c. not (names id c)) (containers w)
