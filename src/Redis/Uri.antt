-- ===== src/Redis/Uri.antt =====
-- config.go and redis.go: the URI of a numbered database, and what it is read as when the database is
-- removed.
use dbctl.Base.{
  ℕ, zero, suc, ◌^◌, ◌<◌, ◌≡◌, refl, ◌∙◌, ap, true, false, not, ◌&&◌, ◌||◌, Option, none, some, [],
  ◌∷◌, ◌++◌, if◌then◌else◌, Text, codes, is_empty, has_prefix, trim_prefix, trim_prefix-append, All,
  ok, arith, Exec, pure, ◌>>◌, defer,
}
use mathlib.Core.Path.{ap₂}
use dbctl.Base.Decimal.{
  pos, format_uint, atoi, atoi-format_uint, format_uint-are_digits, format_uint-ne-nil, is_digit,
}
use dbctl.Container.{Env}
use dbctl.Database.Host.{address}
use dbctl.Database.Address.{
  digits-All, address-is_inner, address-is_address, join-address, port-of_host,
}
use dbctl.Net.Url
use dbctl.Net.Url.{Url, Userinfo}
use dbctl.Net.Url.Escape.{all_bytes}
use dbctl.Net.Url.Authority.{no_user, only_user, user_and_password}
use dbctl.Net.Url.Printable.{IsPrintable}
use dbctl.Net.Url.Parse.{parse-print}
use dbctl.Redis.{Config, uri, with_uri, apply_user, apply_port, format_int, admin_uri}
use dbctl.Redis.Server.{Server}
use dbctl.Redis.Index.{remove_db, release, ignore_nil}

-- The configuration of a numbered database that a URI can carry.
pub record IsNumbered (c : Config) (i : ℕ) : Type 0 where
  pub user_bytes : all_bytes c.user ≡ true
  pub pass_bytes : all_bytes c.pass ≡ true
  pub port_fits : c.port < 2 ^ 32
  pub index : c.db_index ≡ pos i
  pub index_fits : i < 2 ^ 63

abbrev user_of : Text → Text → Option Userinfo
user_of user pass =
    if not (is_empty user) && not (is_empty pass)
    then some (record { username = user; password = some pass })
    else if not (is_empty user)
    then some (record { username = user; password = none })
    else none

digits-all_bytes : (s : Text) → All (λ c. is_digit c ≡ true) s → all_bytes s ≡ true
digits-all_bytes [] h = refl
digits-all_bytes (c ∷ s) (d, h) = ground (arith, d, digits-all_bytes s h)

digits-relative : (s : Text) → All (λ c. is_digit c ≡ true) s → has_prefix s (b'/' ∷ []) ≡ false
unfolding has_prefix
digits-relative [] h = refl
digits-relative (c ∷ s) (d, h) = ground (arith, d)

redis_letters : Url.all_scheme (codes "redis") ≡ true
unfolding Url.all_scheme
redis_letters = refl

printed_parts :
    (env : Env) (port i : ℕ)
    → IsPrintable (codes "redis") (address env) (format_uint port) (format_uint i) []
printed_parts env port i = record {
  scheme_starts = refl;
  scheme_rest = redis_letters;
  host_plain = address-is_inner env;
  port_digits = digits-All (format_uint port) (format_uint-are_digits port);
  path_bytes = digits-all_bytes (format_uint i) (format_uint-are_digits i);
  path_given = ground (arith, format_uint-ne-nil i);
  path_relative = digits-relative (format_uint i) (format_uint-are_digits i);
  query_plain = refl;
}

abbrev read_back : Env → Option Userinfo → ℕ → ℕ → Url
read_back env user port i = record {
  scheme = codes "redis";
  user = user;
  host = address env ++ (b':' ∷ format_uint port);
  path = b'/' ∷ format_uint i;
  raw_query = [];
}

abbrev printed : Env → Option Userinfo → ℕ → ℕ → Text
printed env user port i = Url.print (record {
  scheme = codes "redis";
  user = user;
  host = address env ++ (b':' ∷ format_uint port);
  path = format_uint i;
  raw_query = [];
})

printed-parsed :
    (env : Env) (user pass : Text) (port i : ℕ)
    → all_bytes user ≡ true
    → all_bytes pass ≡ true
    → Url.parse (printed env (user_of user pass) port i)
      ≡ ok (read_back env (user_of user pass) port i)
printed-parsed env [] pass port i u p =
    parse-print (printed_parts env port i)
      (no_user (address env ++ (b':' ∷ format_uint port)) (address-is_address env port))
printed-parsed env (c ∷ user) [] port i u p = parse-print (printed_parts env port i) (
    only_user (c ∷ user) u (address env ++ (b':' ∷ format_uint port)) (address-is_address env port))
printed-parsed env (c ∷ user) (d ∷ pass) port i u p = parse-print (printed_parts env port i) (
    user_and_password (c ∷ user) u (address env ++ (b':' ∷ format_uint port))
      (address-is_address env port) (d ∷ pass) p)

uri-printed :
    (env : Env) (c : Config) (i : ℕ)
    → c.db_index ≡ pos i
    → uri env c ≡ printed env (user_of c.user c.pass) c.port i
unfolding uri format_int
uri-printed env c i e =
    ap₂
      (λ h p. Url.print (record {
        scheme = codes "redis";
        user = user_of c.user c.pass;
        host = h;
        path = p;
        raw_query = [];
      }))
      (join-address env (format_uint c.port)) (ap format_int e)

uri_parsed :
    (env : Env) (c : Config) (i : ℕ)
    → IsNumbered c i
    → Url.parse (uri env c) ≡ ok (read_back env (user_of c.user c.pass) c.port i)
uri_parsed env c i v =
    ap Url.parse (uri-printed env c i v.index)
    ∙ printed-parsed env c.user c.pass c.port i v.user_bytes v.pass_bytes

uri_given : (env : Env) (c : Config) → is_empty (uri env c) ≡ false
unfolding uri Url.print
uri_given env c = refl

apply_user-user_of :
    (user pass : Text) (d : Config)
    → apply_user (user_of user pass) d ≡ record d {
      user = if is_empty user then d.user else user;
      pass = if is_empty user || is_empty pass then d.pass else pass;
    }
unfolding apply_user
apply_user-user_of [] pass d = refl
apply_user-user_of (c ∷ user) [] d = refl
apply_user-user_of (c ∷ user) (x ∷ pass) d = refl

-- What is left of `RemoveDB` once it has its index.
abbrev pub removal : {W : Type 0} → Server W → Env → Config → ℕ → Exec W Unit
removal r env d zero = pure tt
removal r env d (suc i) =
    r.dial (admin_uri env d) >> defer r.close (ignore_nil r (release r (pos (suc i))))

removed :
    {W : Type 0} (r : Server W) (env : Env) (d : Config) (target : Text) (u : Url) (i : ℕ) (w : W)
    → Url.parse target ≡ ok u
    → atoi (trim_prefix u.path (b'/' ∷ [])) ≡ ok (pos i)
    → remove_db r env d target w ≡ removal r env d i w
unfolding remove_db
removed r env d target u zero w parsed index = rw (parsed, index) refl
removed r env d target u (suc i) w parsed index = rw (parsed, index) refl

-- The URI of a numbered database, read as an option, gives back the user, the password where there is a
-- user too, and the port. Removing the database of that URI releases the index that the URI was printed
-- for; index 0 is left alone.
pub remove_db-uri :
    {W : Type 0} (r : Server W) (env : Env) (c d : Config) (i : ℕ) (w : W)
    → IsNumbered c i
    → (with_uri (uri env c) d
        ≡ ok (record d {
          user = if is_empty c.user then d.user else c.user;
          pass = if is_empty c.user || is_empty c.pass then d.pass else c.pass;
          port = c.port;
        }))
      × (remove_db r env d (uri env c) w ≡ removal r env d i w)
unfolding with_uri apply_port
remove_db-uri r env c d i w v =
    let parsed = uri_parsed env c i v in
    let u = read_back env (user_of c.user c.pass) c.port i in
    let (given, number) = port-of_host env u c.port refl v.port_fits in
    (
      rw (uri_given env c, parsed, given, number, apply_user-user_of c.user c.pass d) refl,
      removed r env d (uri env c) u i w parsed (
          ap atoi (trim_prefix-append (b'/' ∷ []) (format_uint i))
          ∙ atoi-format_uint i v.index_fits),
    )
