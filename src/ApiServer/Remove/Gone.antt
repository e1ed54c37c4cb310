-- ===== src/ApiServer/Remove/Gone.antt =====
-- server.go: the database that a removal takes away.
use dbctl.Base.{
  ◌≡◌, refl, ◌∙◌, sym, ap, [], ◌∷◌, text_eq_iff, trim_prefix, arith, ok, bind-ends, lift, ◌>>=◌,
}
use mathlib.Core.Path.{subst}
use dbctl.Net.Url
use dbctl.Net.Url.{Url}
use dbctl.Database.{type_postgres}
use dbctl.Postgres
use dbctl.Postgres.Create as PostgresCreate
use dbctl.Postgres.Cluster.{Cluster, Place, server_of}
use dbctl.Postgres.Cluster.Removal.{Dropped, remove_db-Dropped}
use dbctl.ApiServer.System.{System, Request, RemoveDbRequest}
use dbctl.ApiServer.Remove.{remove_postgres_db, remove_of_type, remove_db}
use dbctl.ApiServer.Remove.Laws.{remove_db-accepts}

module _ {W C : Type 0} (sys : System W) (cl : Cluster sys.sql C) where
  -- The database that a URI names on the server of a configuration.
  abbrev pub named_by : Postgres.Config → Url → Place
  named_by c u = (server_of (Postgres.uri sys.env c), trim_prefix u.path (b'/' ∷ []))

  remove_postgres_db_lem :
      (req : RemoveDbRequest) (w : W)
      → remove_postgres_db sys req w
        ≡ (lift (Postgres.new (Postgres.with_uri req.uri ∷ [])) >>= λ c.
              PostgresCreate.remove_db sys.sql sys.env c req.uri)
            w
  unfolding remove_postgres_db
  remove_postgres_db_lem req w = refl

  remove_of_type-postgres :
      (req : RemoveDbRequest) (w : W)
      → req.db_type ≡ type_postgres
      → remove_of_type sys req w ≡ remove_postgres_db sys req w
  unfolding remove_of_type
  remove_of_type-postgres req w h = ground (arith, h, text_eq_iff req.db_type type_postgres)

  -- A removal for PostgreSQL that is answered with 204 has taken away the database that the path of the URI
  -- names, from the server of the configuration that the options read from that URI, and every other database
  -- is what it was.
  pub remove_db-answered :
      (r : Request) (req : RemoveDbRequest) (w : W)
      → sys.decode_remove r.body ≡ ok req
      → req.db_type ≡ type_postgres
      → (remove_db sys r w).0.status ≡ 204
      → (c : Postgres.Config) × ((u : Url) × ((Postgres.new (Postgres.with_uri req.uri ∷ []) ≡ ok c)
            × (Url.parse req.uri ≡ ok u)
            × Dropped sys.sql cl sys.env (named_by c u) w (remove_db sys r w).1))
  remove_db-answered r req w decoded typed h =
      let (_, (req', (decoded', _, _, run))) = remove_db-accepts sys r w h in
      let same : req' ≡ req = ok_inj (sym decoded' ∙ decoded) in
      let q =
        sym (remove_postgres_db_lem req w)
        ∙ sym (remove_of_type-postgres req w typed)
        ∙ ap (λ x. remove_of_type sys x w) (sym same)
        ∙ run in
      let (c, (configured, ends)) =
        bind-ends (lift (Postgres.new (Postgres.with_uri req.uri ∷ [])))
          (λ c. PostgresCreate.remove_db sys.sql sys.env c req.uri) w tt (ap (λ p. p.0) q) in
      let (u, (parsed, gone)) =
        remove_db-Dropped sys.sql cl sys.env c req.uri w (ap (λ p. p.0) (sym ends ∙ q)) in
      (
        c,
        (
          u,
          (
            configured,
            parsed,
            subst (Dropped sys.sql cl sys.env (named_by c u) w) (ap (λ p. p.1) (sym ends ∙ q)) gone,
          ),
        ),
      )
    where
      ok_inj : {x y : RemoveDbRequest} → ok x ≡ ok y → x ≡ y
      ok_inj h = cc
