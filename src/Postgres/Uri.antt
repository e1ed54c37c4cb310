-- ===== src/Postgres/Uri.antt =====
-- config.go and pg.go: the URI of an instance, and what it is read as when a database is removed.
use dbctl.Base.{
  ◌^◌, ◌<◌, ◌≡◌, refl, ◌∙◌, ap, true, false, some, [], ◌∷◌, ◌++◌, codes, is_empty, has_prefix,
  trim_prefix, trim_prefix-append, ok,
}
use dbctl.Base.Decimal.{format_uint, format_uint-are_digits}
use dbctl.Container.{Env}
use dbctl.Database.Host.{address}
use dbctl.Net.Url
use dbctl.Net.Url.{Url, all_digits, cut_last}
use dbctl.Net.Url.Escape.{all_bytes}
use dbctl.Net.Url.Printable.{IsPrintable}
use dbctl.Net.Url.Authority.{user_and_password}
use dbctl.Net.Url.Parse.{parse-print}
use dbctl.Database.Address.{
  digits-All, address-is_inner, address-is_address, join-address, port-of_host,
}
use dbctl.Postgres.{Config, uri, with_uri, apply_user, apply_port}

-- The texts of a configuration that a URI can carry: bytes, and a name that is not a path.
pub record IsNamed (c : Config) : Type 0 where
  pub user_given : is_empty c.user ≡ false
  pub user_bytes : all_bytes c.user ≡ true
  pub pass_bytes : all_bytes c.pass ≡ true
  pub name_given : is_empty c.name ≡ false
  pub name_bytes : all_bytes c.name ≡ true
  pub name_relative : has_prefix c.name (b'/' ∷ []) ≡ false
  pub port_fits : c.port < 2 ^ 32

scheme_letters : Url.all_scheme (codes "postgres") ≡ true
unfolding Url.all_scheme
scheme_letters = refl

uri_given : (env : Env) (c : Config) → is_empty (uri env c) ≡ false
unfolding uri Url.print
uri_given env c = refl

printed_parts :
    (env : Env) (c : Config)
    → IsNamed c
    → IsPrintable
        (codes "postgres")
        (address env)
        (format_uint c.port)
        c.name
        (codes "sslmode=disable")
printed_parts env c v = record {
  scheme_starts = refl;
  scheme_rest = scheme_letters;
  host_plain = address-is_inner env;
  port_digits = digits-All (format_uint c.port) (format_uint-are_digits c.port);
  path_bytes = v.name_bytes;
  path_given = v.name_given;
  path_relative = v.name_relative;
  query_plain = refl;
}

abbrev pub read_back : Env → Config → Url
read_back env c = record {
  scheme = codes "postgres";
  user = some (record { username = c.user; password = some c.pass });
  host = address env ++ (b':' ∷ format_uint c.port);
  path = b'/' ∷ c.name;
  raw_query = codes "sslmode=disable";
}

pub uri_parsed : (env : Env) (c : Config) → IsNamed c → Url.parse (uri env c) ≡ ok (read_back env c)
unfolding uri
uri_parsed env c v =
    ap
      (λ h. Url.parse (
        Url.print (record {
          scheme = codes "postgres";
          user = some (record { username = c.user; password = some c.pass });
          host = h;
          path = c.name;
          raw_query = codes "sslmode=disable";
        })))
      (join-address env (format_uint c.port))
    ∙ parse-print (printed_parts env c v) (
        user_and_password c.user v.user_bytes (address env ++ (b':' ∷ format_uint c.port))
          (address-is_address env c.port) c.pass v.pass_bytes)

-- The URI that a client is given says where its database is: read as an option, it gives back the user,
-- the password and the port, and changes nothing else, and the name to drop is the name of the database.
pub with_uri-uri :
    (env : Env) (c d : Config)
    → IsNamed c
    → (with_uri (uri env c) d ≡ ok (record d { user = c.user; pass = c.pass; port = c.port }))
      × ((u : Url) × ((Url.parse (uri env c) ≡ ok u) × (trim_prefix u.path (b'/' ∷ []) ≡ c.name)))
unfolding with_uri apply_user apply_port
with_uri-uri env c d v =
    let parsed = uri_parsed env c v in
    let (given, number) = port-of_host env (read_back env c) c.port refl v.port_fits in
    (
      rw (uri_given env c, parsed, given, number, v.user_given) refl,
      (read_back env c, (parsed, trim_prefix-append (b'/' ∷ []) c.name)),
    )
