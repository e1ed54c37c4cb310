-- ===== src/Redis/Start/Create.antt =====
-- redis.go: a database that `CreateDB` gives is one that was free.
use dbctl.Base.{ℕ, ◌≤◌, ◌≡◌, [], Text, arith, ok, Result-cases, inl, inr}
use dbctl.Base.Decimal.{pos}
use dbctl.Container.{Env}
use dbctl.Database.Host.{host_uri}
use dbctl.Files.{Files}
use dbctl.Redis.{Config, default_config, uri, admin_uri, new, with_host}
use dbctl.Redis.Server.{Server, IsUp}
use dbctl.Redis.Index.{acquire_db_index}
use dbctl.Redis.Index.Claims.{Claimed}
use dbctl.Redis.Index.Acquire.{acquired, count_at}
use dbctl.Redis.Start.{create_db}

module _ {W : Type 0} (env : Env) (r : Server W) (files : Files W) {d : ℕ} (up : IsUp r d) where
  -- The configuration whose URI is handed out for an index.
  abbrev pub at_index : Config → ℕ → Config
  at_index c i = record default_config {
    user = c.user;
    pass = c.pass;
    db_index = pos i;
    port = c.port;
  }

  created :
      (c : Config) (w : W) (out : Text)
      → (create_db env r files c [] w).0 ≡ ok out
      → (i : ℕ) × (((r.dial (admin_uri env c) w).0 ≡ ok tt)
          × ((acquire_db_index r (r.dial (admin_uri env c) w).1).0 ≡ ok i)
          × (out ≡ host_uri env (uri env (at_index c i)))
          × ((create_db env r files c [] w).1
              ≡ (r.close (acquire_db_index r (r.dial (admin_uri env c) w).1).1).1))
  unfolding create_db new with_host
  created c w out h =
      let v = (r.dial (admin_uri env c) w).1 in
      elim (Result-cases (r.dial (admin_uri env c) w).0) [
        | inr (e, q) ↦ ground (arith, h, q)
        | inl (t, q) ↦ elim (Result-cases (acquire_db_index r v).0) [
          | inr (e, k) ↦ ground (arith, h, q, k)
          | inl (i, k) ↦
              (i, (ground (arith, q), k, ground (arith, h, q, k), ground (arith, h, q, k)))
        ]
      ]

  -- Without fixtures, on a server that answers and that has the databases it is taken to have, the
  -- URI that `CreateDB` gives is that of an index which was free and is now marked, with its database
  -- emptied.
  pub create_db-Claimed :
      (c : Config) (w : W) (out : Text)
      → up.selected (r.dial (admin_uri env c) w).1 ≡ 0
      → count_at r up (r.dial (admin_uri env c) w).1 ≤ d
      → (create_db env r files c [] w).0 ≡ ok out
      → (let v = (r.dial (admin_uri env c) w).1 in
          (i : ℕ) × ((out ≡ host_uri env (uri env (at_index c i)))
            × Claimed r up 1 i v (acquire_db_index r v).1
            × ((create_db env r files c [] w).1 ≡ (r.close (acquire_db_index r v).1).1)))
  create_db-Claimed c w out z fits h =
      let (i, (q, k, e, same)) = created c w out h in
      let (_, claimed) = acquired r up (r.dial (admin_uri env c) w).1 i z fits k in
      (i, (e, claimed, same))
