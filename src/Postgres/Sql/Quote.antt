-- ===== src/Postgres/Sql/Quote.antt =====
-- Quoted identifiers, against the way the server reads them.
use dbctl.Base.{
  ltb, leb, ◌-◌, is_empty, ℕ, ◌≡◌, refl, ◌∙◌, sym, ap, Bool, true, false, Option, none, some, [],
  ◌∷◌, ◌++◌, if◌then◌else◌, ◌==◌, Text, replace_all, arith, append_assoc, Bool-cases, inl, inr,
  drop, replace_all-one,
}
use dbctl.Postgres.Sql.{quote_identifier}

abbrev put_first : ℕ → Option (Text × Text) → Option (Text × Text)
put_first c none = none
put_first c (some (name, rest)) = some (c ∷ name, rest)

-- The lexical rule of the server behind an opening quotation mark: two marks stand for one, and a
-- single one ends the identifier. With it comes the rest of the statement.
unfoldable pub read_quoted : Text → Option (Text × Text)
read_quoted [] = none
read_quoted (c ∷ []) = if c == b'"' then some ([], []) else none
read_quoted (c ∷ d ∷ s) =
    let plain = read_quoted (d ∷ s) in
    let escaped = read_quoted s in
    if c == b'"'
    then (if d == b'"' then put_first b'"' escaped else some ([], d ∷ s))
    else put_first c plain

abbrev pub starts_with : ℕ → Text → Bool
starts_with c [] = false
starts_with c (d ∷ s) = d == c

-- Behind its first mark, a name that is quoted.
abbrev escaped : Text → Text → Text
escaped name rest = replace_all name (b'"' ∷ []) (b'"' ∷ b'"' ∷ []) ++ (b'"' ∷ rest)

read_quoted-plain :
    (c d : ℕ) (s : Text)
    → (c == b'"') ≡ false
    → read_quoted (c ∷ d ∷ s) ≡ put_first c (read_quoted (d ∷ s))
unfolding read_quoted
read_quoted-plain c d s h = ground (arith, h)

not_nil : (s t : Text) (c : ℕ) → (d : ℕ) × (u : Text) × ((s ++ c ∷ t) ≡ d ∷ u)
not_nil [] t c = (c, t, refl)
not_nil (d ∷ s) t c = (d, s ++ c ∷ t, refl)

read_quoted-put :
    (c : ℕ) (s t : Text)
    → (c == b'"') ≡ false
    → read_quoted (c ∷ (s ++ b'"' ∷ t)) ≡ put_first c (read_quoted (s ++ b'"' ∷ t))
read_quoted-put c s t h =
    let (d, u, e) = not_nil s t b'"' in
    ap (λ x. read_quoted (c ∷ x)) e
    ∙ read_quoted-plain c d u h
    ∙ ap (λ x. put_first c (read_quoted x)) (sym e)

read_quoted-mark : (s : Text) → read_quoted (b'"' ∷ b'"' ∷ s) ≡ put_first b'"' (read_quoted s)
unfolding read_quoted
read_quoted-mark s = ground arith

read_quoted-end :
    (rest : Text) → starts_with b'"' rest ≡ false → read_quoted (b'"' ∷ rest) ≡ some ([], rest)
unfolding read_quoted
read_quoted-end [] h = refl
read_quoted-end (c ∷ rest) h = ground (arith, h)

escaped_mark :
    (c : ℕ) (name rest : Text)
    → (c == b'"') ≡ true
    → escaped (c ∷ name) rest ≡ b'"' ∷ b'"' ∷ escaped name rest
escaped_mark c name rest h = ground (arith, replace_all-one b'"' c (b'"' ∷ b'"' ∷ []) name)

escaped_other :
    (c : ℕ) (name rest : Text)
    → (c == b'"') ≡ false
    → escaped (c ∷ name) rest ≡ c ∷ escaped name rest
escaped_other c name rest h = ground (arith, replace_all-one b'"' c (b'"' ∷ b'"' ∷ []) name)

read_quoted-escaped :
    (name rest : Text)
    → starts_with b'"' rest ≡ false
    → read_quoted (escaped name rest) ≡ some (name, rest)
unfolding replace_all
read_quoted-escaped [] rest h = read_quoted-end rest h
read_quoted-escaped (c ∷ name) rest h = elim (Bool-cases (c == b'"')) [
  | inl q ↦
      ap read_quoted (escaped_mark c name rest q)
      ∙ read_quoted-mark (escaped name rest)
      ∙ ap (put_first b'"') (read_quoted-escaped name rest h)
      ∙ ap (λ x. some (x ∷ name, rest)) (sym (eq_of c b'"' q))
  | inr q ↦
      ap read_quoted (escaped_other c name rest q)
      ∙ read_quoted-put c (replace_all name (b'"' ∷ []) (b'"' ∷ b'"' ∷ [])) rest q
      ∙ ap (put_first c) (read_quoted-escaped name rest h)
]
  where
    eq_of : (x y : ℕ) → (x == y) ≡ true → x ≡ y
    eq_of x y h = ground (arith, h)

-- Behind its first mark, a quoted identifier is read back, and what follows it.
pub quote_identifier-read :
    (name rest : Text)
    → starts_with b'"' rest ≡ false
    → read_quoted (drop 1 (quote_identifier name ++ rest)) ≡ some (name, rest)
unfolding quote_identifier
quote_identifier-read name rest h =
    ap read_quoted (append_assoc (replace_all name (b'"' ∷ []) (b'"' ∷ b'"' ∷ [])) (b'"' ∷ []) rest)
    ∙ read_quoted-escaped name rest h

-- The bytes of a code point in UTF-8.
abbrev width : ℕ → ℕ
width c = if ltb c 128 then 1 else if ltb c 2048 then 2 else if ltb c 65536 then 3 else 4

-- The code points that fit in so many bytes.
clip : ℕ → Text → Text
clip n [] = []
clip n (c ∷ s) = let more = clip (n - width c) s in if leb (width c) n then c ∷ more else []

-- The name under which the server keeps an identifier: what of it fits in 63 bytes.
unfoldable pub stored : Text → Text
unfolding clip
stored name = clip 63 name

abbrev as_stored : Option (Text × Text) → Option (Text × Text)
as_stored none = none
as_stored (some (name, rest)) = if is_empty name then none else some (stored name, rest)

-- The quoted identifier at the beginning of a text, by the rules of the server: one of no length is an
-- error, and a long one is cut.
unfoldable pub read_identifier : Text → Option (Text × Text)
unfolding read_quoted stored
read_identifier s = if starts_with b'"' s then as_stored (read_quoted (drop 1 s)) else none

-- The server reads the quotation of a name that is not empty as the name that it stores, which is as many
-- of the name's first characters as fit in 63 bytes, whatever marks the name has. It goes on behind the
-- quotation, where no further mark follows.
pub quote_identifier-read_identifier :
    (name rest : Text)
    → is_empty name ≡ false
    → starts_with b'"' rest ≡ false
    → read_identifier (quote_identifier name ++ rest) ≡ some (stored name, rest)
unfolding read_identifier quote_identifier
quote_identifier-read_identifier name rest given h =
    ap as_stored (quote_identifier-read name rest h) ∙ rw given refl
