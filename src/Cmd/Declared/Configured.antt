-- ===== src/Cmd/Declared/Configured.antt =====
-- cmd/start/pg.go: the configuration that a command line asks for.
use dbctl.Base.{
  ℕ, is_empty, trim_space, ◌≡◌, refl, ◌∙◌, sym, ap, Bool, false, List, [], ◌∷◌, ◌++◌, Text, codes,
  text_discrete, ok, Result, Exec, lift, pure, ◌>>=◌,
}
use mathlib.Core.Path.{subst}
use mathlib.Core.Option.{get_or}
use dbctl.Container.{Env}
use dbctl.Container.Docker.{Engine}
use dbctl.Base.Gives.{Holds, Holds-ok, Gives, bind-Gives}
use dbctl.Files.{Files}
use dbctl.Redis.Start.{Host}
use dbctl.Postgres
use dbctl.Postgres.Details.{
  Details, details, or_default, with_migrations-Gives, with_fixtures-Gives, new-Holds,
}
use dbctl.Cmd.Flags.{Flags}
use dbctl.Cmd.Start.{postgres_config}
use dbctl.Cmd.Declared.{
  Flag, Given, IsParsed, default_of, root_flags, start_flags, postgres_command,
}

-- The flags of `dbctl start postgres`.
abbrev pub postgres_flags : List Flag
postgres_flags = postgres_command.flags ++ (start_flags ++ root_flags)

abbrev with_display : Bool → Text → Details → Details
with_display on label (user, pass, name, port, version, _, _) =
    (user, pass, name, port, version, label, on)

abbrev IsMade : Bool → Details → Bool × Postgres.Config → Type 0
IsMade detach wanted p = (p.0 ≡ detach) × (details p.1 ≡ wanted)

-- What a command line asks for, by what it gives.
unfoldable pub asked : Given → Details
asked given =
    let text_of : Text → Text → Text = λ name d. get_or (given.texts name) d in
    let version : Text = text_of (codes "version") [] in
    (
      text_of (codes "user") (codes "postgres"),
      text_of (codes "pass") (codes "postgres"),
      text_of (codes "name") (codes "postgres"),
      get_or (given.numbers (codes "port")) 15432,
      or_default (is_empty (trim_space version)) version,
      text_of (codes "label") [],
      get_or (given.truths (codes "ui")) false,
    )

module _ {W : Type 0} (engine : Engine W) (host : Host W) (env : Env) (files : Files W)
    (flags : Flags) (given : Given) (parsed : IsParsed flags postgres_flags given) where
  abbrev text_of : Text → Text → Text
  text_of name d = get_or (given.texts name) d

  abbrev made_of : Text → Text → Text → Text → ℕ → Result Postgres.Config
  made_of user pass name version port =
      Postgres.new (Postgres.with_host user pass name port ∷ Postgres.with_version version ∷ [])

  abbrev display : Bool → Bool → Text → Postgres.Config → Exec W (Bool × Postgres.Config)
  display detach on label c =
      lift (Postgres.apply_settings (Postgres.with_ui on ∷ Postgres.with_label label ∷ []) c)
      >>= λ c. pure (detach, c)

  abbrev add_fixtures :
      Bool → Bool → Text → Text → Postgres.Config → Exec W (Bool × Postgres.Config)
  add_fixtures detach on label path c =
      Postgres.with_fixtures files path c >>= display detach on label

  abbrev add_files :
      Bool → Bool → Text → Text → Text → Postgres.Config → Exec W (Bool × Postgres.Config)
  add_files detach on label migrations fixtures c =
      Postgres.with_migrations files migrations c >>= add_fixtures detach on label fixtures

  -- The options, once the flags are read.
  configure :
      Bool
      → Bool
      → ℕ
      → Text
      → Text
      → Text
      → Text
      → Text
      → Text
      → Text
      → Exec W (Bool × Postgres.Config)
  configure detach with_ui port label name pass user version migrations fixtures =
      lift (made_of user pass name version port)
      >>= add_files detach with_ui label migrations fixtures

  postgres_config-configure :
      (w : W)
      → postgres_config engine host env files flags w
        ≡ configure
            (get_or (given.truths (codes "detach")) false)
            (get_or (given.truths (codes "ui")) false)
            (get_or (given.numbers (codes "port")) 15432)
            (text_of (codes "label") [])
            (text_of (codes "name") (codes "postgres"))
            (text_of (codes "pass") (codes "postgres"))
            (text_of (codes "user") (codes "postgres"))
            (text_of (codes "version") [])
            (text_of (codes "migrations") [])
            (text_of (codes "fixtures") [])
            w
  unfolding postgres_config configure default_of text_discrete
  postgres_config-configure w =
      rw
        (
          parsed.uint32_read (codes "port") 15432 refl,
          parsed.string_read (codes "label") [] refl,
          parsed.bool_read (codes "detach") false refl,
          parsed.bool_read (codes "ui") false refl,
          parsed.string_read (codes "name") (codes "postgres") refl,
          parsed.string_read (codes "pass") (codes "postgres") refl,
          parsed.string_read (codes "user") (codes "postgres") refl,
          parsed.string_read (codes "version") [] refl,
          parsed.string_read (codes "migrations") [] refl,
          parsed.string_read (codes "fixtures") [] refl,
        )
        refl

  configure-Gives :
      (detach with_ui : Bool) (port : ℕ) (label name pass user version migrations fixtures : Text)
      → Gives
          (IsMade detach (
            user,
            pass,
            name,
            port,
            or_default (is_empty (trim_space version)) version,
            label,
            with_ui,
          ))
          (configure detach with_ui port label name pass user version migrations fixtures)
  unfolding configure Postgres.apply_settings Postgres.with_ui Postgres.with_label
  configure-Gives detach with_ui port label name pass user version migrations fixtures =
      bind-Gives (λ c. details c ≡ old) made (lift (made_of user pass name version port))
        (add_files detach with_ui label migrations fixtures)
        (λ w. new-Holds user pass name version port)
        (λ c p.
          bind-Gives (λ d. details d ≡ details c) made (Postgres.with_migrations files migrations c)
            (add_fixtures detach with_ui label fixtures) (with_migrations-Gives files migrations c)
            (λ c' q.
              bind-Gives (λ d. details d ≡ details c') made
                (Postgres.with_fixtures files fixtures c') (display detach with_ui label)
                (with_fixtures-Gives files fixtures c')
                (λ d r w. (refl, ap (with_display with_ui label) (r ∙ q ∙ p)))))
    where
      old : Details
      old = (user, pass, name, port, or_default (is_empty (trim_space version)) version, [], false)

      made : Bool × Postgres.Config → Type 0
      made = IsMade detach (with_display with_ui label old)

  -- When cobra reads the flags as they are declared, the configuration that `dbctl start postgres` makes
  -- has the user, the password, the name, the port, the version, the label and the user interface that
  -- the command line gives, and the declared defaults for what it does not give. A version of spaces only
  -- is not given. The same holds of running detached.
  pub postgres_config-asked :
      (w : W) (detach : Bool) (c : Postgres.Config)
      → (postgres_config engine host env files flags w).0 ≡ ok (detach, c)
      → (detach ≡ get_or (given.truths (codes "detach")) false) × (details c ≡ asked given)
  unfolding asked
  postgres_config-asked w detach c h =
      Holds-ok wanted (postgres_config engine host env files flags w).0 (detach, c)
        (subst (λ p. Holds wanted p.0) (sym (postgres_config-configure w))
          (configure-Gives _ _ _ _ _ _ _ _ _ _ w))
        h
    where
      wanted : Bool × Postgres.Config → Type 0
      wanted = IsMade (get_or (given.truths (codes "detach")) false) (asked given)
