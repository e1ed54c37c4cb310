-- ===== src/Tests/Uris.antt =====
-- URIs of instances, read back.
use dbctl.Base.{
  ◌≡◌, refl, true, false, [], ◌∷◌, ◌||◌, if◌then◌else◌, Text, codes, is_empty, trim_prefix, ok,
  arith,
}
use dbctl.Base.Decimal.{pos}
use dbctl.Net.Url
use dbctl.Net.Url.{Url}
use dbctl.Postgres as Pg
use dbctl.Postgres.Uri.{IsNamed, with_uri-uri}
use dbctl.Redis as Rs
use dbctl.Redis.Index.{remove_db}
use dbctl.Redis.Uri.{IsNumbered, removal, remove_db-uri}
use dbctl.Tests.Redis.{memory, fresh, no_env}

abbrev named : Pg.Config
named = record Pg.default_config {
  user = codes "a@b";
  pass = codes "p/:?";
  name = codes "dbctl_1";
  port = 5433;
}

named-IsNamed : IsNamed named
unfolding dbctl.Base.has_prefix
named-IsNamed = record {
  user_given = refl;
  user_bytes = refl;
  pass_bytes = refl;
  name_given = refl;
  name_bytes = refl;
  name_relative = refl;
  port_fits = omega arith;
}

with_uri-uri_example :
    (Pg.with_uri (Pg.uri no_env named) Pg.default_config
      ≡ ok (record Pg.default_config { user = codes "a@b"; pass = codes "p/:?"; port = 5433 }))
    × ((u : Url) × ((Url.parse (Pg.uri no_env named) ≡ ok u)
          × (trim_prefix u.path (b'/' ∷ []) ≡ codes "dbctl_1")))
with_uri-uri_example = with_uri-uri no_env named Pg.default_config named-IsNamed

abbrev numbered : Rs.Config
numbered = record Rs.default_config { db_index = pos 3 }

numbered-IsNumbered : IsNumbered numbered 3
numbered-IsNumbered = record {
  user_bytes = refl;
  pass_bytes = refl;
  port_fits = omega arith;
  index = refl;
  index_fits = omega arith;
}

remove_db-uri_example :
    (Rs.with_uri (Rs.uri no_env numbered) Rs.default_config ≡ ok Rs.default_config)
    × (remove_db memory no_env Rs.default_config (Rs.uri no_env numbered) fresh
        ≡ removal memory no_env Rs.default_config 3 fresh)
remove_db-uri_example =
    remove_db-uri memory no_env numbered Rs.default_config 3 fresh numbered-IsNumbered
