-- ===== src/Postgres/Cluster/Statement.antt =====
-- The statements of pg.go that make or drop a database, as the server reads them.
use dbctl.Base.{
  ◌≡◌, refl, ◌∙◌, ap, sym, false, Option, none, some, [], ◌∷◌, ◌++◌, if◌then◌else◌, ◌==◌, Text,
  codes, drop, is_empty, append-nil, arith,
}
use dbctl.Postgres.Sql.{quote_identifier}
use dbctl.Postgres.Sql.Quote.{read_quoted, starts_with, quote_identifier-read}
use dbctl.Postgres.Create.{create_statement, template_statement, drop_statement}

pub data Statement : Type 0 where
  create : Text → Statement
  copy : Text → Text → Statement
  remove : Text → Statement

-- What follows a keyword.
unfoldable pub after : Text → Text → Option Text
after [] s = some s
after (p ∷ keyword) [] = none
after (p ∷ keyword) (c ∷ s) = let more = after keyword s in if c == p then more else none

after-append : (keyword s : Text) → after keyword (keyword ++ s) ≡ some s
unfolding after
after-append [] s = refl
after-append (p ∷ keyword) s = ground (arith, after-append keyword s)

-- A quoted name and what follows it.
unfoldable pub read_name : Text → Option (Text × Text)
unfolding read_quoted
read_name s = if starts_with b'"' s then read_quoted (drop 1 s) else none

abbrev read_copy : Text → Option (Text × Text) → Option Statement
read_copy name none = none
read_copy name (some (template, rest)) = if is_empty rest then some (copy name template) else none

-- What follows the name of a database that is made.
abbrev read_template : Text → Option Text → Option Statement
read_template name none = none
read_template name (some rest) = read_copy name (read_name rest)

abbrev read_create : Option (Text × Text) → Option Statement
read_create none = none
read_create (some (name, rest)) =
    if is_empty rest
    then some (create name)
    else read_template name (after (codes " with template ") rest)

abbrev read_drop : Option (Text × Text) → Option Statement
read_drop none = none
read_drop (some (name, rest)) = if is_empty rest then some (remove name) else none

-- The grammar of the server for quoted names: any other statement is `none`.
unfoldable pub read_statement : Text → Option Statement
unfolding after read_name
read_statement s = elim (after (codes "create database ") s) [
  | some rest ↦ read_create (read_name rest)
  | none ↦ elim (after (codes "drop database if exists ") s) [
    | some rest ↦ read_drop (read_name rest)
    | none ↦ none
  ]
]

read_name-quote_identifier :
    (name rest : Text)
    → starts_with b'"' rest ≡ false
    → read_name (quote_identifier name ++ rest) ≡ some (name, rest)
unfolding read_name quote_identifier
read_name-quote_identifier name rest h = quote_identifier-read name rest h

read_name-whole : (name : Text) → read_name (quote_identifier name) ≡ some (name, [])
read_name-whole name =
    ap read_name (sym (append-nil (quote_identifier name)))
    ∙ read_name-quote_identifier name [] refl

-- The statement that is sent asks for a database of that name, whatever marks the name has.
pub read_statement-create_statement :
    (name : Text) → read_statement (create_statement name) ≡ some (create name)
unfolding read_statement
read_statement-create_statement name = ap read_create (read_name-whole name)

pub read_statement-template_statement :
    (name template : Text)
    → read_statement (template_statement name template) ≡ some (copy name template)
unfolding read_statement
read_statement-template_statement name template =
    ap read_create
      (read_name-quote_identifier name (codes " with template " ++ quote_identifier template) refl)
    ∙ ap (read_copy name) (read_name-whole template)

pub read_statement-drop_statement :
    (name : Text) → read_statement (drop_statement name) ≡ some (remove name)
unfolding read_statement
read_statement-drop_statement name = ap read_drop (read_name-whole name)
