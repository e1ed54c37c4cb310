-- ===== src/Postgres/Cluster/Removal.antt =====
-- pg.go: `CreateDB` and `RemoveDB` on the databases of the server.
use dbctl.Base.{
  ℕ, ◌≡◌, none, [], ◌∷◌, if◌then◌else◌, Text, is_empty, trim_prefix, wrap, ok, Exec, Result-cases,
  Bool-cases, inl, inr, arith, bind-ok, with_context, with_context-ok, defer, ◌>>=◌,
}
use mathlib.Core.Path.{subst}
use dbctl.Net.Url
use dbctl.Net.Url.{Url}
use dbctl.Container.{Env}
use dbctl.Postgres.{Config, uri}
use dbctl.Postgres.Sql.{Sql}
use dbctl.Postgres.Create.{
  db_connect, drop_statement, terminate_statement, drop_statements, remove_db,
}
use dbctl.Postgres.Cluster.{Cluster, Place, is_place, server_of}
use dbctl.Postgres.Cluster.Statement.{read_statement-drop_statement}
use dbctl.Postgres.Cluster.Names.{at, db_connect-host, db_connect-Stays}

module _ {W C : Type 0} (sql : Sql W) (cl : Cluster sql C) (env : Env) where
  -- The databases but the one of that place.
  abbrev pub Dropped : Place → W → W → Type 0
  Dropped p w v = (d : Place) → cl.find v d ≡ (if is_place d p then none else cl.find w d)

  drop_statements-Dropped :
      (conn : ℕ) (name : Text) (w : W)
      → (drop_statements sql env conn name w).0 ≡ ok tt
      → Dropped (at sql cl conn name) w (drop_statements sql env conn name w).1
  unfolding drop_statements
  drop_statements-Dropped conn name w h d =
      let v = (sql.exec conn terminate_statement (name ∷ []) w).1 in
      let (x, (ended, rest)) =
        bind-ok
          (with_context (wrap "terminating connections to database %q failed: %w" (name ∷ []))
            (sql.exec conn terminate_statement (name ∷ [])))
          (λ _.
            with_context (wrap "drop database failed: %w" [])
              (sql.exec conn (drop_statement name) []))
          w tt h in
      let gone =
        with_context-ok (wrap "drop database failed: %w" [])
          (sql.exec conn (drop_statement name) []) v tt rest in
      let kept = cl.terminate_keeps conn (name ∷ []) w d in
      ground (
        arith,
        ended,
        gone,
        kept,
        cl.dropped conn (drop_statement name) [] v name d (read_statement-drop_statement name) gone,
      )

  remove_named : Config → Text → Exec W Unit
  remove_named c name = do
    conn ← db_connect sql (uri env c)
    defer (sql.close conn) (drop_statements sql env conn name)

  remove_named-Dropped :
      (c : Config) (name : Text) (w : W)
      → (remove_named c name w).0 ≡ ok tt
      → Dropped (server_of (uri env c), name) w (remove_named c name w).1
  unfolding remove_named
  remove_named-Dropped c name w h d =
      let (conn, (opened, rest)) =
        bind-ok (db_connect sql (uri env c))
          (λ conn. defer (sql.close conn) (drop_statements sql env conn name)) w tt h in
      let v = (db_connect sql (uri env c) w).1 in
      let gone : Dropped (server_of (uri env c), name) v (drop_statements sql env conn name v).1 =
        subst (λ h. Dropped (h, name) v (drop_statements sql env conn name v).1)
          (db_connect-host sql cl (uri env c) w conn opened)
          (drop_statements-Dropped conn name v rest) in
      ground (
        arith,
        opened,
        db_connect-Stays sql cl (uri env c) w d,
        gone d,
        cl.close_keeps conn (drop_statements sql env conn name v).1 d,
      )

  -- A removal that succeeds takes the database away that the path of the URI names, on the server of the
  -- configuration, and no other.
  pub remove_db-Dropped :
      (c : Config) (target : Text) (w : W)
      → (remove_db sql env c target w).0 ≡ ok tt
      → (u : Url) × ((Url.parse target ≡ ok u)
          × Dropped
              (server_of (uri env c), trim_prefix u.path (b'/' ∷ []))
              w
              (remove_db sql env c target w).1)
  unfolding remove_db remove_named
  remove_db-Dropped c target w h = elim (Result-cases (Url.parse target)) [
    | inr (e, q) ↦ absurd (ground (arith, h, q))
    | inl (u, q) ↦
        let name = trim_prefix u.path (b'/' ∷ []) in
        elim (Bool-cases (is_empty name)) [
          | inl none_given ↦ absurd (ground (arith, h, q, none_given))
          | inr given ↦ (
            u,
            (
              q,
              λ d.
                  ground (
                    arith,
                    q,
                    given,
                    remove_named-Dropped c name w (ground (arith, h, q, given)) d,
                  ),
            ),
          )
        ]
  ]
