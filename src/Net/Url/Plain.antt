-- ===== src/Net/Url/Plain.antt =====
-- `net/url`: which code points an escaped text holds.
use dbctl.Base.{
  ℕ, ◌/◌, ◌%◌, ◌<◌, ◌≡◌, refl, Bool, true, false, not, ◌&&◌, [], ◌∷◌, ◌==◌, Text, all_of, arith,
  Bool-cases, inl, inr,
}
use dbctl.Net.Url.{is_user_char}
use dbctl.Net.Url.Escaping.{
  Mode, encode_user, encode_path, escape, escape_one, should_escape, is_query, hex_digit, is_alnum,
}
use dbctl.Net.Url.Escape.{all_bytes}

-- What every code point of an escaped text is: one that is left alone, `%` or a hexadecimal digit.
escape-all_of :
    (p : ℕ → Bool) (mode : Mode) (s : Text)
    → is_query mode ≡ false
    → all_bytes s ≡ true
    → ((c : ℕ) → should_escape mode c ≡ false → p c ≡ true)
    → p b'%' ≡ true
    → ((n : ℕ) → n < 16 → p (hex_digit n) ≡ true)
    → all_of p (escape mode s) ≡ true
unfolding escape escape_one
escape-all_of p mode [] q bytes plain percent hex = refl
escape-all_of p mode (c ∷ s) q bytes plain percent hex =
    let rest = escape-all_of p mode s q (ground (arith, bytes)) plain percent hex in
    elim (Bool-cases (should_escape mode c)) [
      | inl e ↦ ground (arith, e, q, rest, percent, hex (c / 16), hex (c % 16), bytes)
      | inr e ↦ ground (arith, e, rest, plain c e)
    ]

-- A code point that ends no part of an authority.
abbrev pub is_inner : ℕ → Bool
is_inner c =
    not (c == b':')
    && (not (c == b'/') && (not (c == b'@') && (not (c == b'?') && not (c == b'#'))))

hex-is_inner : (n : ℕ) → n < 16 → is_inner (hex_digit n) ≡ true
unfolding hex_digit
hex-is_inner n h = ground arith

pub escape_user-is_inner :
    (s : Text) → all_bytes s ≡ true → all_of is_inner (escape encode_user s) ≡ true
unfolding should_escape is_alnum
escape_user-is_inner s h =
    escape-all_of is_inner encode_user s refl h (λ c e. ground (arith, e)) refl hex-is_inner

hex-valid : (n : ℕ) → n < 16 → is_user_char (hex_digit n) ≡ true
unfolding hex_digit is_alnum
hex-valid n h = ground arith

pub escape_user-valid :
    (s : Text) → all_bytes s ≡ true → all_of is_user_char (escape encode_user s) ≡ true
unfolding should_escape is_alnum
escape_user-valid s h =
    escape-all_of is_user_char encode_user s refl h (λ c e. ground (arith, e)) refl hex-valid

abbrev pub in_path : ℕ → Bool
in_path c = not (c == b'?') && not (c == b'#')

hex-in_path : (n : ℕ) → n < 16 → in_path (hex_digit n) ≡ true
unfolding hex_digit
hex-in_path n h = ground arith

pub escape_path-in_path :
    (s : Text) → all_bytes s ≡ true → all_of in_path (escape encode_path s) ≡ true
unfolding should_escape is_alnum
escape_path-in_path s h =
    escape-all_of in_path encode_path s refl h (λ c e. ground (arith, e)) refl hex-in_path
