-- ===== src/ApiServer/Run.antt =====
-- container.go: the API server in a container.
pub mod Told
use dbctl.Base.{
  ℕ, zero, suc, Bool, true, false, Option, none, some, [], ◌∷◌, ◌++◌, if◌then◌else◌, Text, codes,
  is_empty, wrap, Result, ok, err, Exec, pure, raise, ◌>>=◌, ◌>>◌, try,
}
use dbctl.Base.Decimal.{format_uint}
use dbctl.Base.Dict
use dbctl.Base.Dict.{Dict}
use dbctl.Net.Url
use dbctl.Container.{Env, CreateRequest, run, terminate_by_id, port_spec, label_type, label_custom}
use dbctl.Container.Docker.{Engine}
use dbctl.Database.{Instance, find_instances}
use dbctl.Redis.Start.{Host}

-- The clock of `waitForPort`: whether the timeout has passed, asked behind each failed attempt.
module _ {W : Type 0} (engine : Engine W) (host : Host W) (timed_out : Exec W Bool) where
  -- The loop of `waitForPort` on fuel; `none` is a loop that still runs.
  unfoldable pub wait_for_port : ℕ → Text → Exec W (Option (Result Unit))
  unfolding Url.join_host_port
  wait_for_port zero port = pure none
  wait_for_port (suc ticks) port = do
    conn ← try (engine.dial_tcp (Url.join_host_port (codes "127.0.0.1") port))
    elim conn [
      | ok _ ↦ pure (some (ok tt))
      | err e ↦ do
        over ← timed_out
        elim over [
          | true ↦
              pure (some (err (wrap "apiserver did not come up on %s within %s: %w" (port ∷ []) e)))
          | false ↦ wait_for_port ticks port
        ]
    ]

  -- `json.Marshal` of the instances is the argument `encode`.
  unfoldable pub server_request :
      Env → (Dict Instance → Text) → Text → Text → Dict Instance → ℕ → ℕ → CreateRequest
  unfolding port_spec format_uint Dict.insert
  server_request env encode port label instances now rnd =
      let vars : Dict Text =
        (codes "DBCTL_INSIDE_DOCKER", codes "true")
        ∷ (codes "DBCTL_INSTANCES", encode instances)
        ∷ [] in
      let labels : Dict Text = (label_type, codes "apiserver") ∷ [] in
      record {
        name = codes "dbctl_apiserver_" ++ (format_uint now ++ (b'_' ∷ format_uint rnd));
        image = codes "mirzakhani/dbctl:latest";
        exposed_ports = port_spec env port (codes "1988/tcp") ∷ [];
        cmd = codes "/dbctl" ∷ codes "api-server" ∷ [];
        env = if is_empty label then vars else Dict.insert (codes "DBCTL_LABEL") label vars;
        labels = if is_empty label then labels else Dict.insert label_custom label labels;
      }

  -- `none` is a wait that still runs. A server that does not come up takes its container with it.
  unfoldable pub run_api_server_container :
      Env → (Dict Instance → Text) → ℕ → Text → Text → Exec W (Option Unit)
  unfolding find_instances run server_request wait_for_port terminate_by_id
  run_api_server_container env encode ticks port label = do
    rnd ← host.random
    instances ← find_instances engine label
    now ← host.unix_time
    cn ← run engine (server_request env encode port label instances now rnd)
    waited ← wait_for_port ticks port
    elim waited [
      | none ↦ pure none
      | some (ok _) ↦ pure (some tt)
      | some (err e) ↦ try (terminate_by_id engine cn.id) >> raise e
    ]
