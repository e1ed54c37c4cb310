-- ===== src/Postgres/Cluster/Lifecycle.antt =====
-- pg.go: a database from `CreateDB` to the `RemoveDB` that is given its URI.
use dbctl.Base.{
  then_result, ℕ, ◌^◌, ◌<◌, ◌≡◌, refl, ◌∙◌, sym, ap, true, false, [], ◌∷◌, ◌++◌, if◌then◌else◌,
  Text, All, is_empty, has_prefix, codes, trim_prefix, Result, ok, Exec, Result-cases, Bool-cases,
  inl, inr, arith, bind-ok, pure, defer, ◌>>=◌, ◌>>◌,
}
use mathlib.Core.Path.{subst}
use dbctl.Base.Decimal.{is_digit, format_uint, format_uint-are_digits}
use dbctl.Base.Frame.{Stays}
use dbctl.Net.Url
use dbctl.Net.Url.{Url}
use dbctl.Net.Url.Escape.{all_bytes}
use dbctl.Container.{Env}
use dbctl.Database.Host.{host_uri, inside_docker}
use dbctl.Files.{Files}
use dbctl.Postgres.{new, with_uri, apply_settings, Config, default_config, uri, get_files}
use dbctl.Postgres.Uri.{IsNamed, with_uri-uri, uri_parsed, read_back}
use dbctl.Postgres.Sql.{Sql}
use dbctl.Postgres.Create.{
  CreateDbRequest, db_connect, apply_fixtures_from_dir, create_named, create_on, create_db,
  remove_db,
}
use dbctl.Postgres.Cluster.{Cluster, IsApart, server_of, host_in, is_there}
use dbctl.Postgres.Cluster.Names.{names, at, db_connect-host, apply_sql-Stays, get_files-Stays}
use dbctl.Postgres.Cluster.Made.{create_named-Makes}
use dbctl.Postgres.Cluster.Removal.{Dropped, remove_db-Dropped}

-- The name of a database that is made at a time, and the configuration that points at it.
abbrev pub made_name : ℕ → Text
made_name now = codes "dbctl_" ++ format_uint now

abbrev pub made_config : Config → ℕ → Config
made_config c now = record default_config {
  user = c.user;
  pass = c.pass;
  name = made_name now;
  port = c.port;
}

digits-all_bytes : (s : Text) → All (λ c. is_digit c ≡ true) s → all_bytes s ≡ true
digits-all_bytes [] h = refl
digits-all_bytes (c ∷ s) (d, h) = ground (arith, d, digits-all_bytes s h)

host_uri-outside : (env : Env) (s : Text) → inside_docker env ≡ false → host_uri env s ≡ s
unfolding host_uri
host_uri-outside env s h = rw h refl

ok_inj : {u v : Url} → ok u ≡ ok v → u ≡ v
ok_inj h = cc

made_config-IsNamed :
    (c : Config) (now : ℕ)
    → is_empty c.user ≡ false
    → all_bytes c.user ≡ true
    → all_bytes c.pass ≡ true
    → c.port < 2 ^ 32
    → IsNamed (made_config c now)
unfolding has_prefix
made_config-IsNamed c now given user pass port = record {
  user_given = given;
  user_bytes = user;
  pass_bytes = pass;
  name_given = refl;
  name_bytes = digits-all_bytes (format_uint now) (format_uint-are_digits now);
  name_relative = refl;
  port_fits = port;
}

config_inj : {c d : Config} → ok c ≡ ok d → c ≡ d
config_inj h = cc

-- What a URI leaves in a configuration, besides the name.
abbrev with_details : Config → Config
with_details c = record default_config { user = c.user; pass = c.pass; port = c.port }

with_details-IsNamed : (c : Config) → IsNamed c → IsNamed (with_details c)
unfolding has_prefix
with_details-IsNamed c named = record {
  user_given = named.user_given;
  user_bytes = named.user_bytes;
  pass_bytes = named.pass_bytes;
  name_given = refl;
  name_bytes = refl;
  name_relative = refl;
  port_fits = named.port_fits;
}

server_of-uri :
    (env : Env) (c : Config) → IsNamed c → server_of (uri env c) ≡ (read_back env c).host
unfolding server_of
server_of-uri env c named = ap host_in (uri_parsed env c named)

module _ {W C : Type 0} (sql : Sql W) (cl : Cluster sql C) (env : Env) where
  -- What `CreateDB` gives: the address of a database that is there, on the server of the configuration.
  abbrev pub IsMade : Config → Text → W → Type 0
  IsMade c out v =
      (now : ℕ) × ((out ≡ host_uri env (uri env (made_config c now)))
        × (names sql cl v (server_of (uri env c), made_name now) ≡ true))

module _ {W C : Type 0} (sql : Sql W) (cl : Cluster sql C) (files : Files W)
    (apart : IsApart files cl.find) (sha256 : Text → Text) (rel : Text → Text → Result Text)
    (env : Env) (unix_nano : Exec W ℕ) where
  apply_fixtures_from_dir-Stays :
      (dir target : Text) → Stays (names sql cl) (apply_fixtures_from_dir sql files dir target)
  unfolding apply_fixtures_from_dir
  apply_fixtures_from_dir-Stays dir target w d = elim (Bool-cases (is_empty dir)) [
    | inl q ↦ ground (arith, q)
    | inr q ↦ elim (Result-cases (get_files files dir w).0) [
      | inr (e, k) ↦ ground (arith, q, k, get_files-Stays sql cl files apart dir w d)
      | inl (fs, k) ↦ ground (
        arith,
        q,
        k,
        get_files-Stays sql cl files apart dir w d,
        apply_sql-Stays sql cl files apart fs target (get_files files dir w).1 d,
      )
    ]
  ]

  abbrev made_uri : Config → ℕ → Text
  made_uri c now = uri env (made_config c now)

  add_fixtures : Text → Text → Exec W Unit
  add_fixtures dir target =
      if is_empty dir then pure tt else apply_fixtures_from_dir sql files dir target

  add_fixtures-Stays : (dir target : Text) → Stays (names sql cl) (add_fixtures dir target)
  unfolding add_fixtures
  add_fixtures-Stays dir target w d = elim (Bool-cases (is_empty dir)) [
    | inl q ↦ ground (arith, q)
    | inr q ↦ ground (arith, q, apply_fixtures_from_dir-Stays dir target w d)
  ]

  fill : Config → CreateDbRequest → ℕ → Exec W Text
  fill c req now = do
    add_fixtures req.fixtures (made_uri c now)
    pure (host_uri env (made_uri c now))

  make : Config → CreateDbRequest → ℕ → ℕ → Exec W Text
  make c req conn now = do
    create_named sql files sha256 rel env unix_nano conn (made_name now) (made_uri c now) req
    fill c req now

  create_on-make :
      (c : Config) (req : CreateDbRequest) (conn : ℕ) (w : W)
      → create_on sql files sha256 rel env unix_nano c req conn w
        ≡ (unix_nano >>= λ now. make c req conn now) w
  unfolding create_on make fill add_fixtures
  create_on-make c req conn w = refl

  make-IsMade :
      (c : Config) (req : CreateDbRequest) (conn now : ℕ) (w : W) (out : Text)
      → (make c req conn now w).0 ≡ ok out
      → (out ≡ host_uri env (made_uri c now))
        × (names sql cl (make c req conn now w).1 (at sql cl conn (made_name now)) ≡ true)
  unfolding make fill
  make-IsMade c req conn now w out h =
      let create =
        create_named sql files sha256 rel env unix_nano conn (made_name now) (made_uri c now) req in
      let (x, (made, rest)) = bind-ok create (λ _. fill c req now) w out h in
      let there =
        create_named-Makes sql cl conn (made_name now) files apart sha256 rel (made_uri c now) env
          unix_nano req w made in
      let stays =
        add_fixtures-Stays req.fixtures (made_uri c now) (create w).1
          (at sql cl conn (made_name now)) in
      let (y, (filled, last)) =
        bind-ok (add_fixtures req.fixtures (made_uri c now))
          (λ _. pure (host_uri env (made_uri c now))) (create w).1 out rest in
      (cc, ground (arith, made, filled, there, stays))

  create_on-IsMade :
      (c : Config) (req : CreateDbRequest) (conn : ℕ) (w : W) (out : Text)
      → (create_on sql files sha256 rel env unix_nano c req conn w).0 ≡ ok out
      → (now : ℕ) × ((out ≡ host_uri env (made_uri c now))
          × (names sql cl
                (create_on sql files sha256 rel env unix_nano c req conn w).1
                (at sql cl conn (made_name now))
              ≡ true))
  create_on-IsMade c req conn w out h =
      let same = create_on-make c req conn w in
      let v = (unix_nano w).1 in
      let (now, (read, rest)) =
        bind-ok unix_nano (make c req conn) w out (ap (λ r. r.0) (sym same) ∙ h) in
      let (printed, there) = make-IsMade c req conn now v out rest in
      (now, (printed, ground (arith, same, read, there)))

  -- A request that succeeds gives the address of a database that is there.
  pub create_db-IsMade :
      (c : Config) (req : CreateDbRequest) (w : W) (out : Text)
      → (create_db sql files sha256 rel env unix_nano c req w).0 ≡ ok out
      → IsMade sql cl env c out (create_db sql files sha256 rel env unix_nano c req w).1
  unfolding create_db
  create_db-IsMade c req w out h =
      let body = create_on sql files sha256 rel env unix_nano c req in
      let v = (db_connect sql (uri env c) w).1 in
      let (conn, (opened, rest)) =
        bind-ok (db_connect sql (uri env c)) (λ conn. defer (sql.close conn) (body conn)) w out h in
      let (now, (printed, there)) = create_on-IsMade c req conn v out rest in
      let kept =
        ap is_there (cl.close_keeps conn (body conn v).1 (at sql cl conn (made_name now))) in
      let here : names sql cl (create_db sql files sha256 rel env unix_nano c req w).1
            (at sql cl conn (made_name now))
          ≡ true =
        ground (arith, opened, there, kept) in
      (
        now,
        (
          printed,
          subst
              (λ h.
                names sql cl (create_db sql files sha256 rel env unix_nano c req w).1
                  (h, made_name now)
                ≡ true)
              (db_connect-host sql cl (uri env c) w conn opened) here,
        ),
      )

  -- The configuration of the URI that `CreateDB` gives leads to the server of the database.
  configured_server :
      (c d : Config) (now : ℕ)
      → IsNamed c
      → new (with_uri (uri env (made_config c now)) ∷ []) ≡ ok d
      → server_of (uri env d) ≡ server_of (uri env c)
  unfolding new apply_settings
  configured_server c d now named configured =
      let made =
        made_config-IsNamed c now named.user_given named.user_bytes named.pass_bytes
          named.port_fits in
      let (read, _) = with_uri-uri env (made_config c now) default_config made in
      let same : ok (with_details c) ≡ ok d = ap (λ r. then_result r ok) (sym read) ∙ configured in
      ap (λ x. server_of (uri env x)) (sym (config_inj same))
      ∙ server_of-uri env (with_details c) (with_details-IsNamed c named)
      ∙ sym (server_of-uri env c named)

  -- Outside Docker, with a user, a password and a name that a URI can carry, the URI that `CreateDB` gives
  -- names a database that is there, on the server of its instance, and a removal that succeeds, by that URI
  -- and the configuration that is read from it, takes that database away from that server and no other.
  pub remove_db-create_db :
      (c d : Config) (req : CreateDbRequest) (w u : W) (out : Text)
      → inside_docker env ≡ false
      → IsNamed c
      → (create_db sql files sha256 rel env unix_nano c req w).0 ≡ ok out
      → new (with_uri out ∷ []) ≡ ok d
      → (remove_db sql env d out u).0 ≡ ok tt
      → (now : ℕ) × ((out ≡ uri env (made_config c now))
          × (names sql cl
                (create_db sql files sha256 rel env unix_nano c req w).1
                (server_of (uri env c), made_name now)
              ≡ true)
          × Dropped sql cl env
              (server_of (uri env c), made_name now)
              u
              (remove_db sql env d out u).1)
  remove_db-create_db c d req w u out outside named made configured removed =
      let (now, (printed, there)) = create_db-IsMade c req w out made in
      let (url, (parsed, gone)) = remove_db-Dropped sql cl env d out u removed in
      let carried =
        made_config-IsNamed c now named.user_given named.user_bytes named.pass_bytes
          named.port_fits in
      let (_, (url', (parsed', path))) =
        with_uri-uri env (made_config c now) default_config carried in
      let plain : out ≡ uri env (made_config c now) =
        printed ∙ host_uri-outside env (uri env (made_config c now)) outside in
      let same : trim_prefix url.path (b'/' ∷ []) ≡ made_name now =
        ap (λ (r : Url). trim_prefix r.path (b'/' ∷ []))
          (ok_inj (sym parsed ∙ ap Url.parse plain ∙ parsed'))
        ∙ path in
      let server : server_of (uri env d) ≡ server_of (uri env c) =
        configured_server c d now named
          (ap (λ t. new (with_uri t ∷ [])) (sym plain) ∙ configured) in
      let place : (server_of (uri env d), trim_prefix url.path (b'/' ∷ []))
          ≡ (server_of (uri env c), made_name now) =
        cc in
      (
        now,
        (
          plain,
          there,
          subst (λ p. Dropped sql cl env p u (remove_db sql env d out u).1) place gone,
        ),
      )
