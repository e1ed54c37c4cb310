-- ===== src/Postgres/Details.antt =====
-- config.go: what the options leave in a configuration besides its files.
use dbctl.Base.{
  ℕ, if◌then◌else◌, is_empty, trim_space, ◌≡◌, refl, Bool, true, false, [], ◌∷◌, Text, errorf, ok,
  err, with_context, wrap,
}
use dbctl.Base.Gives.{Holds, Holds-if, Holds-then_result, Gives, filled-Gives}
use dbctl.Files.{Files}
use dbctl.Postgres

-- What a configuration has besides its files: the user, the password, the name of the database, the
-- port, the version, the label, and whether the user interface runs too.
abbrev pub Details : Type 0
Details = Text × Text × Text × ℕ × Text × Text × Bool

abbrev pub details : Postgres.Config → Details
details c = (c.user, c.pass, c.name, c.port, c.version, c.label, c.with_ui)

-- A version of spaces is none.
abbrev pub or_default : Bool → Text → Text
or_default none_given version = if none_given then Postgres.default_version else version

with_version-Holds :
    (version : Text) (c : Postgres.Config)
    → Holds
        (λ d.
          details d
          ≡ details (record c { version = or_default (is_empty (trim_space version)) version }))
        (Postgres.with_version version c)
unfolding Postgres.with_version
with_version-Holds version c = by_blank (is_empty (trim_space version))
  where
    by_blank :
        (blank : Bool)
        → Holds
            (λ d. details d ≡ details (record c { version = or_default blank version }))
            (if blank
              then ok (record c { version = Postgres.default_version })
              else if Postgres.is_supported (trim_space version) Postgres.get_versions
              then ok (record c { version = version })
              else err (
                  errorf "seleced postgres version (%s) is not supported, select one of: %s"
                    (trim_space version ∷ Postgres.get_versions)))
    by_blank true = refl
    by_blank false =
        Holds-if _ (Postgres.is_supported (trim_space version) Postgres.get_versions) _ _ refl tt

module _ {W : Type 0} (files : Files W) where
  -- The folders of files leave the rest as it is.
  pub with_migrations-Gives :
      (path : Text) (c : Postgres.Config)
      → Gives (λ d. details d ≡ details c) (Postgres.with_migrations files path c)
  unfolding Postgres.with_migrations
  with_migrations-Gives path c =
      filled-Gives (λ d. details d ≡ details c)
        (with_context (wrap "read migraions failed: %w" []) (Postgres.get_files files path))
        (λ found. record c {
          migrations_files =
              Postgres.append_files files c.migrations_files (Postgres.migration_files found);
        })
        (λ found. refl)

  pub with_fixtures-Gives :
      (path : Text) (c : Postgres.Config)
      → Gives (λ d. details d ≡ details c) (Postgres.with_fixtures files path c)
  unfolding Postgres.with_fixtures
  with_fixtures-Gives path c =
      filled-Gives (λ d. details d ≡ details c)
        (with_context (wrap "read fixtures failed: %w" []) (Postgres.get_files files path))
        (λ found. record c { fixture_files = found }) (λ found. refl)

pub new-Holds :
    (user pass name version : Text) (port : ℕ)
    → Holds
        (λ c.
          details c
          ≡ (user, pass, name, port, or_default (is_empty (trim_space version)) version, [], false))
        (Postgres.new (Postgres.with_host user pass name port ∷ Postgres.with_version version ∷ []))
unfolding Postgres.new Postgres.apply_settings Postgres.with_host
new-Holds user pass name version port =
    Holds-then_result _ _ (Postgres.with_version version _) _ (with_version-Holds version _)
      (λ c p. p)
