-- ===== src/Net/Url/Escaping.antt =====
-- `net/url`: escaping, and reading back what is escaped.
use dbctl.Base.{
  ℕ, ◌+◌, ◌-◌, ◌*◌, ◌/◌, ◌%◌, Bool, true, false, ◌&&◌, ◌||◌, [], ◌∷◌, ◌++◌, ltb, leb, ◌==◌,
  if◌then◌else◌, Text, Result, ok, err, errorf,
}

-- What a code point that stands in a user name, in a path, in one element of a path or in a query is
-- escaped for.
pub data Mode : Type 0 where
  encode_user encode_path encode_segment encode_query : Mode

unfoldable pub is_alnum : ℕ → Bool
is_alnum c =
    (leb b'a' c && leb c b'z') || ((leb b'A' c && leb c b'Z') || (leb b'0' c && leb c b'9'))

abbrev pub is_mark : ℕ → Bool
is_mark c = c == b'-' || (c == b'_' || (c == b'.' || c == b'~'))

-- `$&+,/:;=?@`
abbrev is_reserved : ℕ → Bool
is_reserved c =
    c == b'$'
    || (c == b'&'
        || (c == b'+'
            || (c == b','
                || (c == b'/'
                    || (c == b':' || (c == b';' || (c == b'=' || (c == b'?' || c == b'@'))))))))

abbrev escapes_reserved : Mode → ℕ → Bool
escapes_reserved encode_user c = c == b'@' || (c == b'/' || (c == b'?' || c == b':'))
escapes_reserved encode_path c = c == b'?'
escapes_reserved encode_segment c = c == b'/' || (c == b';' || (c == b',' || c == b'?'))
escapes_reserved encode_query c = true

-- `shouldEscape`
unfoldable pub should_escape : Mode → ℕ → Bool
unfolding is_alnum
should_escape mode c =
    if is_alnum c || is_mark c
    then false
    else if is_reserved c
    then escapes_reserved mode c
    else true

unfoldable pub hex_digit : ℕ → ℕ
hex_digit n = if ltb n 10 then b'0' + n else b'A' + (n - 10)

abbrev pub is_query : Mode → Bool
is_query encode_query = true
is_query m = false

unfoldable pub escape_one : Mode → ℕ → Text
unfolding should_escape hex_digit
escape_one mode c =
    if should_escape mode c
    then (if is_query mode && c == b' '
        then b'+' ∷ []
        else b'%' ∷ hex_digit (c / 16) ∷ hex_digit (c % 16) ∷ [])
    else c ∷ []

-- `escape`: with the third mode `url.PathEscape`, with the last one `url.QueryEscape`
unfoldable pub escape : Mode → Text → Text
unfolding escape_one
escape mode [] = []
escape mode (c ∷ s) = escape_one mode c ++ escape mode s

unfoldable pub is_hex : ℕ → Bool
is_hex c = (leb b'0' c && leb c b'9') || ((leb b'a' c && leb c b'f') || (leb b'A' c && leb c b'F'))

unfoldable pub unhex : ℕ → ℕ
unhex c =
    if leb b'0' c && leb c b'9'
    then c - b'0'
    else if leb b'a' c && leb c b'f'
    then c - b'a' + 10
    else c - b'A' + 10

abbrev pub cons_result : ℕ → Result Text → Result Text
cons_result c (ok s) = ok (c ∷ s)
cons_result c (err e) = err e

-- `unescape`, outside a query
unfoldable pub unescape : Text → Result Text
unfolding is_hex unhex
unescape [] = ok []
unescape (a ∷ b ∷ c ∷ s) =
    let coded = cons_result (unhex b * 16 + unhex c) (unescape s) in
    let plain = cons_result a (unescape (b ∷ c ∷ s)) in
    if a == b'%'
    then (if is_hex b && is_hex c
        then coded
        else err (errorf "invalid URL escape %q" ((a ∷ b ∷ c ∷ []) ∷ [])))
    else plain
unescape (a ∷ s) =
    let plain = cons_result a (unescape s) in
    if a == b'%' then err (errorf "invalid URL escape %q" ((a ∷ s) ∷ [])) else plain
