-- ===== src/Postgres/Cluster/Names.antt =====
-- pg.go: running files makes and drops no database, and reading them changes none.
use dbctl.Base.{
  ◌≡◌, ◌∙◌, ok, bind-ok, ℕ, refl, ap, some, List, [], ◌∷◌, ◌++◌, Bool, Text, wrap, Result, pure,
  Result-cases, inl, inr, arith, ◌>>◌, defer, with_context, for_each,
}
use dbctl.Base.Frame.{Stays, bind-Stays, defer-Stays, for_each-Stays}
use dbctl.Files.{Files}
use dbctl.Files.Walk.{walk_files}
use dbctl.Postgres.{get_files, is_sql, relative, hash_input, template_name}
use dbctl.Postgres.Sql.{Sql}
use dbctl.Postgres.Create.{db_connect, apply_in_tx, apply_one, apply_sql, run_migrations}
use dbctl.Postgres.Cluster.{Cluster, IsApart, Place, server_of, is_there}

module _ {W C : Type 0} (sql : Sql W) (cl : Cluster sql C) where
  abbrev pub names : W → Place → Bool
  names w d = is_there (cl.find w d)

  -- The database of a name on the server that a connection leads to.
  abbrev pub at : ℕ → Text → Place
  at conn name = (cl.host conn, name)

  -- A connection leads to the server of its URI.
  pub db_connect-host :
      (target : Text) (w : W) (conn : ℕ)
      → (db_connect sql target w).0 ≡ ok conn
      → cl.host conn ≡ server_of target
  unfolding db_connect
  db_connect-host target w conn h =
      let (c, (opened, rest)) = bind-ok (sql.open_db target) (λ c. sql.ping c >> pure c) w conn h in
      let (_, (_, same)) = bind-ok (sql.ping c) (λ _. pure c) (sql.open_db target w).1 conn rest in
      cl.opened target w conn (opened ∙ same)

  pub db_connect-Stays : (target : Text) → Stays cl.find (db_connect sql target)
  unfolding db_connect
  db_connect-Stays target =
      bind-Stays cl.find (sql.open_db target) (λ conn. sql.ping conn >> pure conn)
        (cl.open_keeps target)
        λ conn.
          bind-Stays cl.find (sql.ping conn) (λ _. pure conn) (cl.ping_keeps conn) λ _ w d. refl

  apply_in_tx-Stays : (conn : ℕ) (stmt : Text) → Stays names (apply_in_tx sql conn stmt)
  unfolding apply_in_tx
  apply_in_tx-Stays conn stmt w d = elim (Result-cases (sql.begin_tx conn w).0) [
    | inr (e, q) ↦ ground (arith, q, cl.begin_keeps conn w d)
    | inl (tx, q) ↦
        let v = (sql.begin_tx conn w).1 in
        let u = (sql.tx_exec tx stmt v).1 in
        ground (
          arith,
          q,
          cl.begin_keeps conn w d,
          cl.tx_exec_names tx stmt v d,
          cl.rollback_keeps tx u d,
          cl.commit_names tx u d,
        )
  ]

  module _ (files : Files W) (apart : IsApart files cl.find) where
    apply_one-Stays : (conn : ℕ) (f : Text) → Stays names (apply_one sql files conn f)
    unfolding apply_one
    apply_one-Stays conn f =
        bind-Stays names
          (with_context (wrap "read file (%s) failed: %w" (f ∷ [])) (files.read_file f))
          (λ b.
            with_context (wrap "applying file (%s) failed: %w" (f ∷ [])) (apply_in_tx sql conn b))
          (λ w d. ap is_there (apart.read_keeps f w d)) (λ b. apply_in_tx-Stays conn b)

    pub apply_sql-Stays :
        (stmts : List Text) (target : Text) → Stays names (apply_sql sql files stmts target)
    unfolding apply_sql
    apply_sql-Stays stmts target =
        bind-Stays names (db_connect sql target)
          (λ conn. defer (sql.close conn) (for_each stmts (apply_one sql files conn)))
          (λ w d. ap is_there (db_connect-Stays target w d))
          λ conn.
            defer-Stays names (sql.close conn) (for_each stmts (apply_one sql files conn))
              (λ w d. ap is_there (cl.close_keeps conn w d))
              (for_each-Stays names stmts (apply_one sql files conn) (apply_one-Stays conn))

    -- Migrations make and drop no database, whatever is in their files.
    pub run_migrations-Stays :
        (fs : List Text) (target : Text) → Stays names (run_migrations sql files (some fs) target)
    unfolding run_migrations
    run_migrations-Stays fs target = apply_sql-Stays fs target

    module _ (sha256 : Text → Text) (rel : Text → Text → Result Text) where
      hash_input-Stays :
          (root : Text) (fs : List Text) (written : Text)
          → Stays cl.find (hash_input files sha256 rel root fs written)
      unfolding hash_input
      hash_input-Stays root [] written = λ w d. refl
      hash_input-Stays root (f ∷ fs) written =
          bind-Stays cl.find
            (with_context (wrap "read migration file (%s) failed: %w" (f ∷ [])) (files.read_file f))
            (λ b.
              hash_input files sha256 rel root fs
                (written ++ (relative files sha256 rel root f ++ b)))
            (apart.read_keeps f)
            (λ b. hash_input-Stays root fs (written ++ (relative files sha256 rel root f ++ b)))

      pub template_name-Stays :
          (root : Text) (fs : List Text) → Stays cl.find (template_name files sha256 rel root fs)
      unfolding template_name
      template_name-Stays root fs w d = elim (Result-cases (files.abs root w).0) [
        | inl (r, q) ↦
            ground
              (arith, q, apart.abs_keeps root w d, hash_input-Stays r fs [] (files.abs root w).1 d)
        | inr (e, q) ↦ ground (arith, q, apart.abs_keeps root w d)
      ]

    walk_files-Stays :
        (accept : Text → Bool) (path : Text) → Stays cl.find (walk_files files accept path)
    unfolding walk_files
    walk_files-Stays accept path w d = elim (Result-cases (files.abs path w).0) [
      | inl (r, q) ↦
          ground (arith, q, apart.abs_keeps path w d, apart.walk_keeps r (files.abs path w).1 d)
      | inr (e, q) ↦ ground (arith, q, apart.abs_keeps path w d)
    ]

    -- Listing the files of a request changes no database.
    pub get_files-Stays : (path : Text) → Stays cl.find (get_files files path)
    unfolding get_files
    get_files-Stays path w d =
        let v = (files.is_dir path w).1 in
        ground (
          arith,
          apart.is_dir_keeps path w d,
          apart.is_missing_keeps path v d,
          walk_files-Stays is_sql path v d,
        )
