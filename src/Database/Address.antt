-- ===== src/Database/Address.antt =====
-- The addresses in the URIs of the packages pg and redis.
use dbctl.Base.{
  ℕ, ◌^◌, ◌<◌, ◌≡◌, refl, ◌∙◌, ap, true, false, [], ◌∷◌, ◌++◌, Text, is_empty, has_prefix, all_of,
  All, ok, arith, contains, Bool-cases, inl, inr,
}
use dbctl.Base.Decimal.{
  format_uint, parse_uint, parse_uint-format_uint, format_uint-are_digits, format_uint-ne-nil,
  is_digit,
}
use dbctl.Container.{Env}
use dbctl.Database.Host.{address, inside_docker}
use dbctl.Net.Url
use dbctl.Net.Url.{Url, all_digits, cut_last}
use dbctl.Net.Url.Authority.{is_address}
use dbctl.Net.Url.Cut.{all_of-append, all_of-weaken, cut_last-found}
use dbctl.Net.Url.Plain.{is_inner}
use dbctl.Net.Url.Printable.{inner-lacks_colon, digits-is_inner}

pub digits-All : (s : Text) → All (λ c. is_digit c ≡ true) s → all_digits s ≡ true
unfolding all_digits Url.is_digit
digits-All [] h = refl
digits-All (c ∷ s) (d, h) = ground (arith, d, digits-All s h)

pub address-is_inner : (env : Env) → all_of is_inner (address env) ≡ true
address-is_inner env = elim (Bool-cases (inside_docker env)) [
  | inl e ↦ rw e refl
  | inr e ↦ rw e refl
]

pub join-address :
    (env : Env) (port : Text) → Url.join_host_port (address env) port ≡ address env ++ (b':' ∷ port)
unfolding Url.join_host_port contains has_prefix
join-address env port = elim (Bool-cases (inside_docker env)) [
  | inl e ↦ rw e refl
  | inr e ↦ rw e refl
]

-- The port of a URI on the host is printed in decimal.
pub port-of_host :
    (env : Env) (u : Url) (n : ℕ)
    → u.host ≡ address env ++ (b':' ∷ format_uint n)
    → n < 2 ^ 32
    → (is_empty (Url.port u) ≡ false) × (parse_uint 32 (Url.port u) ≡ ok n)
unfolding Url.port
port-of_host env u n e fits =
    let digits = digits-All (format_uint n) (format_uint-are_digits n) in
    let found =
      ap (cut_last b':') e
      ∙ cut_last-found b':' (address env) (format_uint n)
          (inner-lacks_colon (format_uint n) (digits-is_inner (format_uint n) digits)) in
    let printed : Url.port u ≡ format_uint n = ground (arith, found, digits) in
    (
      ap is_empty printed ∙ ground (arith, format_uint-ne-nil n),
      ap (parse_uint 32) printed ∙ parse_uint-format_uint 32 n fits,
    )

-- What the URIs of instances on this host have between the user and the path.
pub address-is_address :
    (env : Env) (n : ℕ) → all_of is_address (address env ++ (b':' ∷ format_uint n)) ≡ true
address-is_address env n =
    all_of-append is_address (address env) (b':' ∷ format_uint n)
      (all_of-weaken is_inner is_address (address env) (λ c h. ground (arith, h))
        (address-is_inner env))
      (all_of-weaken is_inner is_address (format_uint n) (λ c h. ground (arith, h))
        (digits-is_inner (format_uint n) (digits-All (format_uint n) (format_uint-are_digits n))))
