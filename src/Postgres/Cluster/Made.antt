-- ===== src/Postgres/Cluster/Made.antt =====
-- pg.go: a request that succeeds has made its database.
use dbctl.Base.{
  ℕ, ◌≡◌, refl, ◌∙◌, ap, true, some, List, [], ◌∷◌, Text, is_empty, wrap, wraps,
  database_not_exists, Result, ok, Exec, Result-cases, Bool-cases, inl, inr, arith, bind-ok,
  with_context, with_context-ok, pure, ◌>>=◌, ◌>>◌, try,
}
use dbctl.Files.{Files}
use dbctl.Container.{Env}
use dbctl.Postgres.{get_files, migration_files, template_name, default_template}
use dbctl.Postgres.Sql.{Sql}
use dbctl.Postgres.Create.{
  CreateDbRequest, create_statement, create_database, create_with_template, run_migrations, build,
  from_template, from_files, create_database_from_migrations, default_error, create_named,
}
use dbctl.Postgres.Cluster.{Cluster, IsApart, is_place, is_place_refl, is_there}
use dbctl.Postgres.Cluster.Statement.{read_statement-create_statement}
use dbctl.Postgres.Cluster.Names.{names, at, run_migrations-Stays}
use dbctl.Postgres.Cluster.Template.{create_with_template-ok, create_with_template-err}

module _ {W C : Type 0} (sql : Sql W) (cl : Cluster sql C) (conn : ℕ) (name : Text) where
  -- A run that succeeds leaves a database of that name.
  abbrev pub Makes : Exec W Unit → Type 0
  Makes m = (w : W) → (m w).0 ≡ ok tt → names sql cl (m w).1 (at sql cl conn name) ≡ true

  create_database-Makes : Makes (create_database sql conn name)
  unfolding create_database
  create_database-Makes w h =
      cl.created conn (create_statement name) [] w name (at sql cl conn name)
        (read_statement-create_statement name) (ground (arith, h))
      ∙ rw (is_place_refl (at sql cl conn name)) refl

  create_with_template-Makes :
      (template : Text) → Makes (create_with_template sql conn name template)
  create_with_template-Makes template w h =
      let (c, (found, after)) = create_with_template-ok sql cl conn name template w h in
      ground (arith, after (at sql cl conn name), is_place_refl (at sql cl conn name))

  -- The snapshot leaves the database that it copies in its place.
  snapshot_keeps :
      (template : Text) (w : W)
      → names sql cl w (at sql cl conn name) ≡ true
      → names sql cl (create_with_template sql conn template name w).1 (at sql cl conn name) ≡ true
  snapshot_keeps template w there =
      elim (Result-cases (create_with_template sql conn template name w).0) [
        | inr (e, q) ↦
            ap is_there
              (create_with_template-err sql cl conn template name w e q (at sql cl conn name))
            ∙ there
        | inl (x, q) ↦
            let (c, (found, after)) = create_with_template-ok sql cl conn template name w q in
            elim (Bool-cases (is_place (at sql cl conn name) (at sql cl conn template))) [
              | inl same ↦ ground (arith, after (at sql cl conn name), same)
              | inr differs ↦ ground (arith, after (at sql cl conn name), differs, there)
            ]
      ]

  module _ (files : Files W) (apart : IsApart files cl.find) (sha256 : Text → Text)
      (rel : Text → Text → Result Text) (target : Text) where
    build-Makes :
        (fs : List Text) (template : Text)
        → Makes (build sql files sha256 rel conn name target fs template)
    unfolding build
    build-Makes fs template w h =
        let v = (create_database sql conn name w).1 in
        let u = (run_migrations sql files (some fs) target v).1 in
        let (x, (made, rest)) =
          bind-ok (create_database sql conn name)
            (λ _.
              run_migrations sql files (some fs) target
              >> (try (create_with_template sql conn template name) >>= λ copied. pure tt))
            w tt h in
        let (y, (ran, _)) =
          bind-ok (run_migrations sql files (some fs) target)
            (λ _. try (create_with_template sql conn template name) >>= λ copied. pure tt) v tt
            rest in
        let there : names sql cl u (at sql cl conn name) ≡ true =
          run_migrations-Stays sql cl files apart fs target v (at sql cl conn name)
          ∙ create_database-Makes w made in
        let same : (build sql files sha256 rel conn name target fs template w).1
            ≡ (create_with_template sql conn template name u).1 =
          ground (arith, made, ran) in
        ap (λ s. names sql cl s (at sql cl conn name)) same ∙ snapshot_keeps template u there

    from_template-Makes :
        (fs : List Text) (template : Text)
        → Makes (from_template sql files sha256 rel conn name target fs template)
    unfolding from_template
    from_template-Makes fs template w h =
        let v = (create_with_template sql conn name template w).1 in
        elim (Result-cases (create_with_template sql conn name template w).0) [
          | inl (x, q) ↦ ground (arith, q, create_with_template-Makes template w q)
          | inr (e, q) ↦ elim (Bool-cases (wraps database_not_exists e)) [
            | inl missing ↦ ground (arith, h, q, missing, build-Makes fs template v)
            | inr other ↦ absurd (ground (arith, h, q, other))
          ]
        ]

    from_files-Makes :
        (path : Text) (fs : List Text)
        → Makes (from_files sql files sha256 rel conn name target path fs)
    from_files-Makes path [] w h = create_database-Makes w h
    from_files-Makes path (f ∷ fs) w h =
        let (template, (named, rest)) =
          bind-ok (template_name files sha256 rel path (f ∷ fs))
            (from_template sql files sha256 rel conn name target (f ∷ fs)) w tt h in
        ground (
          arith,
          named,
          from_template-Makes (f ∷ fs) template (template_name files sha256 rel path (f ∷ fs) w).1
              rest,
        )

    create_database_from_migrations-Makes :
        (path : Text)
        → Makes (create_database_from_migrations sql files sha256 rel conn name target path)
    unfolding create_database_from_migrations
    create_database_from_migrations-Makes path w h =
        let (fs, (listed, rest)) =
          bind-ok (with_context (wrap "read migraions failed: %w" []) (get_files files path))
            (λ fs. from_files sql files sha256 rel conn name target path (migration_files fs)) w tt
            h in
        ground (
          arith,
          listed,
          from_files-Makes path (migration_files fs) (get_files files path w).1 rest,
        )

    module _ (env : Env) (unix_nano : Exec W ℕ) where
      pub create_named-Makes :
          (req : CreateDbRequest)
          → Makes (create_named sql files sha256 rel env unix_nano conn name target req)
      unfolding create_named
      create_named-Makes req w h = elim (Bool-cases req.with_default_migrations) [
        | inl copied ↦
            let good =
              with_context-ok (default_error sql files sha256 rel env unix_nano)
                (create_with_template sql conn name default_template) w tt
                (ground (arith, h, copied)) in
            ground (arith, copied, create_with_template-Makes default_template w good)
        | inr q ↦ elim (Bool-cases (is_empty req.migrations)) [
          | inl plain ↦ ground (arith, h, q, plain, create_database-Makes w)
          | inr given ↦
              ground (arith, h, q, given, create_database_from_migrations-Makes req.migrations w)
        ]
      ]
