-- ===== src/Net/Url/Escape.antt =====
-- `net/url`: what is escaped is read back.
use dbctl.Base.{
  ℕ, ◌+◌, ◌*◌, ◌/◌, ◌%◌, ◌<◌, ◌≡◌, refl, ◌∙◌, ap, Bool, true, false, ◌&&◌, [], ◌∷◌, ◌++◌, ltb, ◌==◌,
  Text, ok, arith, Bool-cases, inl, inr,
}
use dbctl.Net.Url.Escaping.{
  Mode, escape, escape_one, unescape, should_escape, is_query, is_hex, unhex, hex_digit,
  cons_result, is_alnum,
}

abbrev pub all_bytes : Text → Bool
all_bytes [] = true
all_bytes (c ∷ s) = ltb c 256 && all_bytes s

is_hex-hex_digit : (n : ℕ) → n < 16 → is_hex (hex_digit n) ≡ true
unfolding is_hex hex_digit
is_hex-hex_digit n h = ground arith

unhex-hex_digit : (n : ℕ) → n < 16 → unhex (hex_digit n) ≡ n
unfolding unhex hex_digit
unhex-hex_digit n h = ground arith

unescape-plain :
    (c : ℕ) (s : Text) → (c == b'%') ≡ false → unescape (c ∷ s) ≡ cons_result c (unescape s)
unfolding unescape
unescape-plain c [] h = ground (arith, h)
unescape-plain c (x ∷ []) h = ground (arith, h)
unescape-plain c (x ∷ y ∷ s) h = ground (arith, h)

unescape-coded :
    (b c : ℕ) (s : Text)
    → is_hex b ≡ true
    → is_hex c ≡ true
    → unescape (b'%' ∷ b ∷ c ∷ s) ≡ cons_result (unhex b * 16 + unhex c) (unescape s)
unfolding unescape
unescape-coded b c s h k = ground (arith, h, k)

percent_escaped : (mode : Mode) (c : ℕ) → should_escape mode c ≡ false → (c == b'%') ≡ false
unfolding should_escape is_alnum
percent_escaped mode c h = ground arith

unescape-one :
    (mode : Mode) (c : ℕ) (s : Text)
    → is_query mode ≡ false
    → c < 256
    → unescape (escape_one mode c ++ s) ≡ cons_result c (unescape s)
unfolding escape_one
unescape-one mode c s q h = elim (Bool-cases (should_escape mode c)) [
  | inl e ↦ ground (
    arith,
    e,
    q,
    unescape-coded (hex_digit (c / 16)) (hex_digit (c % 16)) s,
    is_hex-hex_digit (c / 16),
    is_hex-hex_digit (c % 16),
    unhex-hex_digit (c / 16),
    unhex-hex_digit (c % 16),
  )
  | inr e ↦ ground (arith, e, unescape-plain c s (percent_escaped mode c e))
]

-- A user name, a password or a path of bytes is read back from its escaped form.
pub unescape-escape :
    (mode : Mode) (s : Text)
    → is_query mode ≡ false
    → all_bytes s ≡ true
    → unescape (escape mode s) ≡ ok s
unfolding escape unescape
unescape-escape mode [] q h = refl
unescape-escape mode (c ∷ s) q h =
    unescape-one mode c (escape mode s) q (ground (arith, h))
    ∙ ap (cons_result c) (unescape-escape mode s q (ground (arith, h)))
