-- ===== src/Net/Url/Printable.antt =====
-- `net/url`: the parts of a URI, and what each of them lacks.
use dbctl.Base.{
  ◌≡◌, refl, true, false, not, ◌&&◌, Option, none, some, [], ◌∷◌, ◌==◌, if◌then◌else◌, Text,
  is_empty, has_prefix, all_of, Result, ok, err, errorf, then_result, arith,
}
use dbctl.Net.Url.{
  Url, cut, cut_last, parse_rest, parse_user, parse_host, valid_user, all_digits, is_digit,
  all_scheme, starts_letter, is_user_char, path_of, strip_slashes, or_empty,
}
use dbctl.Net.Url.Escaping.{unescape, is_alnum}
use dbctl.Net.Url.Escape.{all_bytes}
use dbctl.Net.Url.Cut.{lacks, all_of-weaken}
use dbctl.Net.Url.Plain.{is_inner, in_path}

-- The parts of a URI behind its user, each free of what ends it.
pub record IsPrintable (scheme host port path query : Text) : Type 0 where
  pub scheme_starts : starts_letter scheme ≡ true
  pub scheme_rest : all_scheme scheme ≡ true
  pub host_plain :
      all_of
        (λ c.
          not (c == b':')
          && (not (c == b'/') && (not (c == b'@') && (not (c == b'?') && not (c == b'#')))))
        host
      ≡ true
  pub port_digits : all_digits port ≡ true
  pub path_bytes : all_bytes path ≡ true
  pub path_given : is_empty path ≡ false
  pub path_relative : has_prefix path (b'/' ∷ []) ≡ false
  pub query_plain : lacks b'#' query ≡ true

pub inner-lacks_slash : (s : Text) → all_of is_inner s ≡ true → lacks b'/' s ≡ true
inner-lacks_slash s = all_of-weaken is_inner (λ c. not (c == b'/')) s (λ c h. ground (arith, h))

pub inner-lacks_at : (s : Text) → all_of is_inner s ≡ true → lacks b'@' s ≡ true
inner-lacks_at s = all_of-weaken is_inner (λ c. not (c == b'@')) s (λ c h. ground (arith, h))

pub inner-lacks_colon : (s : Text) → all_of is_inner s ≡ true → lacks b':' s ≡ true
inner-lacks_colon s = all_of-weaken is_inner (λ c. not (c == b':')) s (λ c h. ground (arith, h))

pub digits-is_inner : (s : Text) → all_digits s ≡ true → all_of is_inner s ≡ true
unfolding all_digits is_digit
digits-is_inner [] h = refl
digits-is_inner (c ∷ s) h = ground (arith, h, digits-is_inner s)

pub valid_user-all_of : (s : Text) → all_of is_user_char s ≡ true → valid_user s ≡ true
unfolding valid_user
valid_user-all_of [] h = refl
valid_user-all_of (c ∷ s) h = ground (arith, h, valid_user-all_of s)

-- The end of `parse_rest`, from the user information and the host on, and that from the authority on.
abbrev pub from_info : Text → Text → Text → Option Text × Text → Result Url
from_info scheme query tail p = then_result (parse_user p.0) λ user.
    then_result (parse_host p.1) λ host. then_result (unescape tail) λ path.
      ok (record { scheme = scheme; user = user; host = host; path = path; raw_query = query })

abbrev pub from_authority : Text → Text → Text × Option Text → Result Url
from_authority scheme query p = from_info scheme query (path_of p.1) (cut_last b'@' p.0)

-- The end of `parse`, from the scheme on, from what stands in front of the query on, and so on.
abbrev pub from_scheme : Text → Text → Text × Option Text → Result Url
from_scheme uri query p = elim p.1 [
  | none ↦ err (errorf "no scheme in %q" (uri ∷ []))
  | some after ↦
      if starts_letter p.0 && all_scheme p.0
      then elim (strip_slashes after) [
        | none ↦ err (errorf "no authority in %q" (uri ∷ []))
        | some rest ↦ parse_rest p.0 query rest
      ]
      else err (errorf "bad scheme in %q" (uri ∷ []))
]

abbrev pub from_front : Text → Text × Option Text → Result Url
from_front uri p = from_scheme uri (or_empty p.1) (cut b':' p.0)

abbrev pub from_body : Text → Text × Option Text → Result Url
from_body uri p = from_front uri (cut b'?' p.0)

pub inner-in_path : (s : Text) → all_of is_inner s ≡ true → all_of in_path s ≡ true
inner-in_path s = all_of-weaken is_inner in_path s (λ c h. ground (arith, h))

pub scheme-in_path : (s : Text) → all_scheme s ≡ true → all_of in_path s ≡ true
unfolding all_scheme is_alnum
scheme-in_path [] h = refl
scheme-in_path (c ∷ s) h = ground (arith, h, scheme-in_path s)

pub scheme-lacks_colon : (s : Text) → all_scheme s ≡ true → lacks b':' s ≡ true
unfolding all_scheme is_alnum
scheme-lacks_colon [] h = refl
scheme-lacks_colon (c ∷ s) h = ground (arith, h, scheme-lacks_colon s)

pub query_part-lacks_hash :
    (q : Text) → lacks b'#' q ≡ true → lacks b'#' (if is_empty q then [] else b'?' ∷ q) ≡ true
query_part-lacks_hash [] h = refl
query_part-lacks_hash (c ∷ q) h = h

pub or_empty_given : (q : Text) → or_empty (if is_empty q then none else some q) ≡ q
or_empty_given [] = refl
or_empty_given (c ∷ q) = refl
