-- ===== src/Postgres/Cluster/Request.antt =====
-- pg.go: what a request with migrations leaves on the server, and what the next one finds there.
use dbctl.Base.{
  ℕ, ◌≡◌, ◌∙◌, sym, ap, false, some, List, [], ◌∷◌, if◌then◌else◌, Text, wrap, Error, Result, ok,
  err, Result-cases, inl, inr, arith, ◌⊎◌,
}
use dbctl.Files.{Files}
use dbctl.Postgres.{get_files, migration_files, template_name}
use dbctl.Postgres.Sql.{Sql}
use dbctl.Postgres.Create.{
  create_with_template, from_template, from_files, create_database_from_migrations,
}
use dbctl.Postgres.Cluster.{Cluster, IsApart, Place, is_place, is_there}
use dbctl.Postgres.Cluster.Names.{names, at, get_files-Stays, template_name-Stays}
use dbctl.Postgres.Cluster.Template.{
  IsWhole, IsWhole-subst, create_database-names, from_template-IsWhole, create_with_template-ok,
  create_with_template-err, create_with_template-wraps,
}

module _ {W C : Type 0} (sql : Sql W) (cl : Cluster sql C) where
  -- What a request for a database leaves behind when its template holds `c`: a copy of it and nothing else, or
  -- an error and nothing at all.
  abbrev pub IsCopied : Place → C → W → Result (Unit {0}) × W → Type 0
  IsCopied name c w (r, v) =
      ((r ≡ ok tt)
        × ((d : Place) → cl.find v d ≡ (if is_place d name then some c else cl.find w d)))
      ⊎ ((e : Error) × ((r ≡ err e) × ((d : Place) → cl.find v d ≡ cl.find w d)))

module _ {W C : Type 0} (sql : Sql W) (cl : Cluster sql C) (files : Files W)
    (apart : IsApart files cl.find) (sha256 : Text → Text) (rel : Text → Text → Result Text)
    (conn : ℕ) (name : Text) where
  module _ (t : Place) (other : is_place t (at sql cl conn name) ≡ false) (target path : Text) where
    from_files-IsWhole :
        (fs : List Text) (w : W)
        → names sql cl w t ≡ false
        → IsWhole sql cl
            (at sql cl conn name)
            t
            (from_files sql files sha256 rel conn name target path fs w)
    from_files-IsWhole [] w new = inl (create_database-names sql cl conn name t other w new)
    from_files-IsWhole (f ∷ fs) w new =
        let v = (template_name files sha256 rel path (f ∷ fs) w).1 in
        let kept : names sql cl v t ≡ false =
          ap is_there (template_name-Stays sql cl files apart sha256 rel path (f ∷ fs) w t) ∙ new in
        elim (Result-cases (template_name files sha256 rel path (f ∷ fs) w).0) [
          | inr (e, q) ↦
              IsWhole-subst sql cl conn name t other {out = (err e, v)} (ground (arith, q))
                (inl kept)
          | inl (template, q) ↦
              IsWhole-subst sql cl conn name t other
                {out = from_template sql files sha256 rel conn name target (f ∷ fs) template v}
                (ground (arith, q))
                (from_template-IsWhole sql cl conn name t other files apart sha256 rel target
                  (f ∷ fs) template v kept)
        ]

    -- A database under another name that a request makes is a copy of the database of the request, and the
    -- request has succeeded: a request that fails, also in the midst of its migrations, leaves no template.
    pub create_database_from_migrations-IsWhole :
        (w : W)
        → names sql cl w t ≡ false
        → IsWhole sql cl
            (at sql cl conn name)
            t
            (create_database_from_migrations sql files sha256 rel conn name target path w)
    unfolding create_database_from_migrations
    create_database_from_migrations-IsWhole w new =
        let v = (get_files files path w).1 in
        let kept : names sql cl v t ≡ false =
          ap is_there (get_files-Stays sql cl files apart path w t) ∙ new in
        elim (Result-cases (get_files files path w).0) [
          | inr (e, q) ↦
              IsWhole-subst sql cl conn name t other
                {out = (err (wrap "read migraions failed: %w" [] e), v)} (ground (arith, q))
                (inl kept)
          | inl (fs, q) ↦
              IsWhole-subst sql cl conn name t other
                {out = from_files sql files sha256 rel conn name target path (migration_files fs) v}
                (ground (arith, q)) (from_files-IsWhole (migration_files fs) v kept)
        ]

  module _ (target : Text) (template : Text) (c : C) where
    IsCopied-subst :
        (w v : W) {out run : Result (Unit {0}) × W}
        → run ≡ out
        → ((d : Place) → cl.find v d ≡ cl.find w d)
        → IsCopied sql cl (at sql cl conn name) c v out
        → IsCopied sql cl (at sql cl conn name) c w run
    IsCopied-subst w v e kept (inl (good, copied)) =
        inl (
          ap (λ r. r.0) e ∙ good,
          λ d. ap (λ r. cl.find r.1 d) e ∙ copied d ∙ ground (arith, kept d),
        )
    IsCopied-subst w v e kept (inr (f, (bad, same))) =
        inr (f, (ap (λ r. r.0) e ∙ bad, λ d. ap (λ r. cl.find r.1 d) e ∙ same d ∙ kept d))

    from_template-IsCopied :
        (fs : List Text) (w : W)
        → cl.find w (at sql cl conn template) ≡ some c
        → IsCopied sql cl
            (at sql cl conn name)
            c
            w
            (from_template sql files sha256 rel conn name target fs template w)
    unfolding from_template
    from_template-IsCopied fs w there =
        let v = (create_with_template sql conn name template w).1 in
        elim (Result-cases (create_with_template sql conn name template w).0) [
          | inl (x, q) ↦
              let (c', (found, after)) = create_with_template-ok sql cl conn name template w q in
              let same : some c' ≡ some c = sym found ∙ there in
              inl (ground (arith, q), λ d. ground (arith, q, after d, same))
          | inr (e, q) ↦
              let kept = create_with_template-err sql cl conn name template w e q in
              let not_missing =
                create_with_template-wraps sql cl conn name template w e q (ap is_there there) in
              inr (e, (ground (arith, q, not_missing), λ d. ground (arith, q, not_missing, kept d)))
        ]

    -- A request whose template is there runs no migration: its database is a copy of the template and no other
    -- database changes, or the server refuses the copy and nothing changes.
    pub create_database_from_migrations-IsCopied :
        (path f : Text) (fs more : List Text) (w : W)
        → (get_files files path w).0 ≡ ok fs
        → migration_files fs ≡ f ∷ more
        → (template_name files sha256 rel path (f ∷ more) (get_files files path w).1).0
          ≡ ok template
        → cl.find w (at sql cl conn template) ≡ some c
        → IsCopied sql cl
            (at sql cl conn name)
            c
            w
            (create_database_from_migrations sql files sha256 rel conn name target path w)
    unfolding create_database_from_migrations
    create_database_from_migrations-IsCopied path f fs more w listed chosen named there =
        let v = (get_files files path w).1 in
        let u = (template_name files sha256 rel path (f ∷ more) v).1 in
        let kept : (d : Place) → cl.find u d ≡ cl.find w d = λ d.
          template_name-Stays sql cl files apart sha256 rel path (f ∷ more) v d
          ∙ get_files-Stays sql cl files apart path w d in
        IsCopied-subst w u
          {out = from_template sql files sha256 rel conn name target (f ∷ more) template u}
          (ground (arith, listed, chosen, named)) kept
          (from_template-IsCopied (f ∷ more) u (kept (at sql cl conn template) ∙ there))
