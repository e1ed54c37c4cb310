-- ===== src/Postgres/Cluster/Template.antt =====
-- pg.go: what `createDatabaseFromMigrations` leaves on the server.
use dbctl.Base.{
  ℕ, ◌≡◌, refl, ◌∙◌, sym, ap, true, false, some, List, [], if◌then◌else◌, Text, Error, wraps,
  database_not_exists, Result, ok, err, Result-cases, Bool-cases, inl, inr, arith, ◌⊎◌,
}
use mathlib.Core.Path.{subst}
use dbctl.Files.{Files}
use dbctl.Postgres.Sql.{Sql}
use dbctl.Postgres.Create.{
  create_statement, template_statement, create_database, create_with_template, run_migrations,
  build, from_template,
}
use dbctl.Postgres.Cluster.{Cluster, IsApart, Place, is_place, is_place_apart, is_there}
use dbctl.Postgres.Cluster.Statement.{
  read_statement-create_statement, read_statement-template_statement,
}
use dbctl.Postgres.Cluster.Names.{names, at, run_migrations-Stays}

module _ {W C : Type 0} (sql : Sql W) (cl : Cluster sql C) where
  -- What is left under the other names: nothing new, or a copy of the database of a request that succeeded.
  abbrev pub IsWhole : Place → Place → Result (Unit {0}) × W → Type 0
  IsWhole name t (r, v) =
      (names sql cl v t ≡ false)
      ⊎ ((r ≡ ok tt) × ((c : C) × ((cl.find v name ≡ some c) × (cl.find v t ≡ some c))))

  module _ (conn : ℕ) (name template : Text) (w : W) where
    abbrev run_copy : Result (Unit {0}) × W
    run_copy = create_with_template sql conn name template w

    -- A copy that is made.
    pub create_with_template-ok :
        run_copy.0 ≡ ok tt
        → (c : C) × ((cl.find w (at sql cl conn template) ≡ some c)
            × ((d : Place)
                → cl.find run_copy.1 d
                  ≡ (if is_place d (at sql cl conn name) then some c else cl.find w d)))
    unfolding create_with_template
    create_with_template-ok h =
        cl.copied conn (template_statement name template) [] w name template
          (read_statement-template_statement name template) (ground (arith, h))

    -- A copy that is refused.
    pub create_with_template-err :
        (e : Error) → run_copy.0 ≡ err e → (d : Place) → cl.find run_copy.1 d ≡ cl.find w d
    unfolding create_with_template
    create_with_template-err e h d =
        elim (Result-cases (sql.exec conn (template_statement name template) [] w).0) [
          | inl (x, q) ↦ absurd (ground (arith, h, q))
          | inr (f, q) ↦ cl.failed_keeps conn (template_statement name template) [] w f d q
        ]

    -- A copy of a database that is there is not refused for the lack of it.
    pub create_with_template-wraps :
        (e : Error)
        → run_copy.0 ≡ err e
        → names sql cl w (at sql cl conn template) ≡ true
        → wraps database_not_exists e ≡ false
    unfolding create_with_template wraps
    create_with_template-wraps e h there =
        elim (Result-cases (sql.exec conn (template_statement name template) [] w).0) [
          | inl (x, q) ↦ absurd (ground (arith, h, q))
          | inr (f, q) ↦ ground (
            arith,
            h,
            q,
            cl.copy_refused conn (template_statement name template) [] w name template f
                (read_statement-template_statement name template) q there,
          )
        ]

  module _ (conn : ℕ) (name : Text) (t : Place)
      (other : is_place t (at sql cl conn name) ≡ false) where
    pub create_database-names :
        (w : W)
        → names sql cl w t ≡ false
        → names sql cl (create_database sql conn name w).1 t ≡ false
    unfolding create_database
    create_database-names w new =
        elim (Result-cases (sql.exec conn (create_statement name) [] w).0) [
          | inl (x, q) ↦
              cl.created conn (create_statement name) [] w name t
                (read_statement-create_statement name) q
              ∙ rw other new
          | inr (e, q) ↦ ap is_there (cl.failed_keeps conn (create_statement name) [] w e t q) ∙ new
        ]

    pub IsWhole-subst :
        {out run : Result (Unit {0}) × W}
        → run ≡ out
        → IsWhole (at sql cl conn name) t out
        → IsWhole (at sql cl conn name) t run
    IsWhole-subst e whole = subst (IsWhole (at sql cl conn name) t) (sym e) whole

    -- The snapshot of a database that is complete.
    snapshot-IsWhole :
        (template : Text) (w : W)
        → names sql cl w t ≡ false
        → IsWhole (at sql cl conn name) t (ok tt, (create_with_template sql conn template name w).1)
    snapshot-IsWhole template w new =
        elim (Result-cases (create_with_template sql conn template name w).0) [
          | inr (e, q) ↦
              inl (ap is_there (create_with_template-err conn template name w e q t) ∙ new)
          | inl (x, q) ↦
              let (c, (found, after)) = create_with_template-ok conn template name w q in
              elim (Bool-cases (is_place t (at sql cl conn template))) [
                | inr differs ↦ inl (ap is_there (after t ∙ rw differs refl) ∙ new)
                | inl same ↦
                    let apart : is_place (at sql cl conn name) (at sql cl conn template) ≡ false =
                      is_place_apart t (at sql cl conn name) (at sql cl conn template) same other in
                    inr (
                      refl,
                      (c, (after (at sql cl conn name) ∙ rw apart found, after t ∙ rw same refl)),
                    )
              ]
        ]

    module _ (files : Files W) (apart : IsApart files cl.find) (sha256 : Text → Text)
        (rel : Text → Text → Result Text) where
      build-IsWhole :
          (target : Text) (fs : List Text) (template : Text) (w : W)
          → names sql cl w t ≡ false
          → IsWhole
              (at sql cl conn name)
              t
              (build sql files sha256 rel conn name target fs template w)
      unfolding build
      build-IsWhole target fs template w new =
          let v = (create_database sql conn name w).1 in
          let u = (run_migrations sql files (some fs) target v).1 in
          let u_new : names sql cl u t ≡ false =
            run_migrations-Stays sql cl files apart fs target v t ∙ create_database-names w new in
          elim (Result-cases (create_database sql conn name w).0) [
            | inr (e, q) ↦
                IsWhole-subst {out = (err e, v)} (ground (arith, q))
                  (inl (create_database-names w new))
            | inl (x, q) ↦ elim (Result-cases (run_migrations sql files (some fs) target v).0) [
              | inr (e, k) ↦ IsWhole-subst {out = (err e, u)} (ground (arith, q, k)) (inl u_new)
              | inl (y, k) ↦
                  IsWhole-subst {out = (ok tt, (create_with_template sql conn template name u).1)}
                    (ground (arith, q, k)) (snapshot-IsWhole template u u_new)
            ]
          ]

      pub from_template-IsWhole :
          (target : Text) (fs : List Text) (template : Text) (w : W)
          → names sql cl w t ≡ false
          → IsWhole
              (at sql cl conn name)
              t
              (from_template sql files sha256 rel conn name target fs template w)
      unfolding from_template
      from_template-IsWhole target fs template w new =
          let v = (create_with_template sql conn name template w).1 in
          elim (Result-cases (create_with_template sql conn name template w).0) [
            | inl (x, q) ↦
                let (c, (found, after)) = create_with_template-ok conn name template w q in
                IsWhole-subst {out = (ok tt, v)} (ground (arith, q))
                  (inl (ap is_there (after t ∙ rw other refl) ∙ new))
            | inr (e, q) ↦
                let kept : names sql cl v t ≡ false =
                  ap is_there (create_with_template-err conn name template w e q t) ∙ new in
                elim (Bool-cases (wraps database_not_exists e)) [
                  | inl missing ↦
                      IsWhole-subst
                        {out = build sql files sha256 rel conn name target fs template v}
                        (ground (arith, q, missing)) (build-IsWhole target fs template v kept)
                  | inr there ↦
                      IsWhole-subst {out = (err e, v)} (ground (arith, q, there)) (inl kept)
                ]
          ]
