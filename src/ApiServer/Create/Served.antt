-- ===== src/ApiServer/Create/Served.antt =====
-- server.go: what the handler has done when it answers with a database.
use dbctl.Base.{
  ◌≡◌, refl, ◌∙◌, sym, ap, Option, Text, codes, Exec, Result, ok, pure, bind-ends, defer-ok, defer,
  ◌>>=◌, ◌>>◌,
}
use mathlib.Core.Path.{subst}
use dbctl.Database.{Instance}
use dbctl.Postgres.{Config}
use dbctl.ApiServer.System.{System, Request}
use dbctl.ApiServer.Upload.{read_multipart_files}
use dbctl.ApiServer.Create.{
  CreateDbRequest, Server, serve_create, serve_migrations, serve_in, apply_instance, instance_for,
  create_of_type, fill, postgres_config,
}

ok_inj : {A : Type 0} {x y : A} → ok x ≡ ok y → x ≡ y
ok_inj h = cc

module _ {W : Type 0} (sys : System W) (s : Server) (r : Request) where
  -- The request with its directories.
  abbrev pub with_dirs : CreateDbRequest → Text → Text → CreateDbRequest
  with_dirs req migrations_dir fixtures_dir = record req {
    migrations = migrations_dir;
    fixtures = fixtures_dir;
  }

  abbrev at_instance : CreateDbRequest → Exec W Text
  at_instance req = do req' ← apply_instance sys s req; create_of_type sys req'

  abbrev read_fixtures : CreateDbRequest → Text → Text → Exec W Text
  read_fixtures req m f =
      read_multipart_files sys r (codes "fixtures") f >> at_instance (with_dirs req m f)

  serve_in_lem :
      (req : CreateDbRequest) (m f : Text) (w : W)
      → serve_in sys s r req m f w
        ≡ (read_multipart_files sys r (codes "migrations") m >> read_fixtures req m f) w
  unfolding serve_in
  serve_in_lem req m f w = refl

  apply_instance_lem :
      (req : CreateDbRequest) (w : W)
      → apply_instance sys s req w ≡ (instance_for sys s req.db_type >>= λ i. pure (fill i req)) w
  unfolding apply_instance
  apply_instance_lem req w = refl

  -- The instance that the server finds for a request.
  abbrev pub IsInstance : CreateDbRequest → Option Instance → Type 0
  IsInstance req i = (v : W) × ((instance_for sys s req.db_type v).0 ≡ ok i)

  -- The configuration of a request, completed by the instance that the server finds for it.
  abbrev pub IsConfigured : CreateDbRequest → Config → Type 0
  IsConfigured req c =
      (i : Option Instance) × (IsInstance req i × (postgres_config (fill i req) ≡ ok c))

  -- What is served is what the type's package makes, for an instance that was found or for none.
  abbrev pub Serves : CreateDbRequest → Result Text × W → Type 0
  Serves req out =
      (i : Option Instance) × (IsInstance req i
        × ((m : Text) × ((f : Text) × ((v : W) × (out
                  ≡ create_of_type sys (fill i (with_dirs req m f)) v)))))

  at_instance-Serves :
      (req : CreateDbRequest) (m f : Text) (w : W) (uri : Text)
      → (at_instance (with_dirs req m f) w).0 ≡ ok uri
      → Serves req (at_instance (with_dirs req m f) w)
  at_instance-Serves req m f w uri h =
      let (x, (applied, ends)) =
        bind-ends (apply_instance sys s (with_dirs req m f)) (create_of_type sys) w uri h in
      let (i, (found, filled)) =
        bind-ends (instance_for sys s req.db_type) (λ i. pure (fill i (with_dirs req m f))) w x
          (ap (λ p. p.0) (sym (apply_instance_lem (with_dirs req m f) w)) ∙ applied) in
      let same : ok x ≡ ok (fill i (with_dirs req m f)) =
        sym applied ∙ ap (λ p. p.0) (apply_instance_lem (with_dirs req m f) w ∙ filled) in
      (
        i,
        (
          (w, found),
          (
            m,
            (
              f,
              (
                (apply_instance sys s (with_dirs req m f) w).1,
                ends
                    ∙ ap (λ y. create_of_type sys y (apply_instance sys s (with_dirs req m f) w).1)
                        (ok_inj same),
              ),
            ),
          ),
        ),
      )

  serve_in-Serves :
      (req : CreateDbRequest) (m f : Text) (w : W) (uri : Text)
      → (serve_in sys s r req m f w).0 ≡ ok uri
      → Serves req (serve_in sys s r req m f w)
  serve_in-Serves req m f w uri h =
      let q = serve_in_lem req m f w in
      let (_, (_, ends1)) =
        bind-ends (read_multipart_files sys r (codes "migrations") m) (λ _. read_fixtures req m f) w
          uri (ap (λ p. p.0) (sym q) ∙ h) in
      let w1 = (read_multipart_files sys r (codes "migrations") m w).1 in
      let (_, (_, ends2)) =
        bind-ends (read_multipart_files sys r (codes "fixtures") f)
          (λ _. at_instance (with_dirs req m f)) w1 uri (ap (λ p. p.0) (sym (q ∙ ends1)) ∙ h) in
      let w2 = (read_multipart_files sys r (codes "fixtures") f w1).1 in
      let all = q ∙ ends1 ∙ ends2 in
      subst (Serves req) (sym all) (at_instance-Serves req m f w2 uri (ap (λ p. p.0) (sym all) ∙ h))

  serve_migrations_lem :
      (req : CreateDbRequest) (m : Text) (w : W)
      → serve_migrations sys s r req m w
        ≡ (sys.mkdir_temp (codes "fixtures-*") >>= λ f.
              defer (sys.remove_all f) (serve_in sys s r req m f))
            w
  unfolding serve_migrations
  serve_migrations_lem req m w = refl

  serve_create_lem :
      (req : CreateDbRequest) (w : W)
      → serve_create sys s r req w
        ≡ (sys.mkdir_temp (codes "migrations-*") >>= λ m.
              defer (sys.remove_all m) (serve_migrations sys s r req m))
            w
  unfolding serve_create
  serve_create_lem req w = refl

  -- The handler's work ends with the removal of its two directories.
  pub serve_create-Serves :
      (req : CreateDbRequest) (w : W) (uri : Text)
      → (serve_create sys s r req w).0 ≡ ok uri
      → (a : Text) × ((b : Text) × ((out : Result Text × W) × (Serves req out
              × ((out.0 ≡ ok uri)
                  × ((serve_create sys s r req w).1
                      ≡ (sys.remove_all a (sys.remove_all b out.1).1).1)))))
  serve_create-Serves req w uri h =
      let q = serve_create_lem req w in
      let (a, (done1, state1)) =
        defer-ok (sys.mkdir_temp (codes "migrations-*")) sys.remove_all
          (serve_migrations sys s r req) w uri (ap (λ p. p.0) (sym q) ∙ h) in
      let w1 = (sys.mkdir_temp (codes "migrations-*") w).1 in
      let k = serve_migrations_lem req a w1 in
      let (b, (done2, state2)) =
        defer-ok (sys.mkdir_temp (codes "fixtures-*")) sys.remove_all (serve_in sys s r req a) w1
          uri (ap (λ p. p.0) (sym k) ∙ done1) in
      let w2 = (sys.mkdir_temp (codes "fixtures-*") w1).1 in
      let ends =
        ap (λ p. p.1) q ∙ state1 ∙ ap (λ u. (sys.remove_all a u).1) (ap (λ p. p.1) k ∙ state2) in
      (a, (b, (serve_in sys s r req a b w2, (serve_in-Serves req a b w2 uri done2, (done2, ends)))))
