-- ===== src/Cmd/Testing.antt =====
-- cmd/testing/start.go: several databases and the API server, by one command.
use dbctl.Base.{
  ◌≡◌, ◌∙◌, sym, ap, Bool, true, false, not, ◌&&◌, List, [], ◌∷◌, ◌++◌, append_assoc, append-nil,
  if◌then◌else◌, Text, codes, text_eq, wrap, Exec, lift, ◌>>=◌, ◌>>◌, for_each, with_context,
  all_of, arith,
}
use dbctl.Cmd.Flags.{Flags}

abbrev pub dash : Text
dash = b'-' ∷ []

abbrev has_parts : List Text → Bool
has_parts [] = false
has_parts (p ∷ parts) = true

-- The loop over the arguments, with the parts of the command being read.
unfoldable pub split_from : List Text → List Text → List (List Text)
split_from parts [] = parts ∷ []
split_from parts (arg ∷ args) =
    let cut = parts ∷ split_from [] args in
    let on = split_from parts args in
    let more = split_from (parts ++ arg ∷ []) args in
    if text_eq arg dash then (if has_parts parts then cut else on) else more

unfoldable pub command_list : List Text → List (List Text)
unfolding split_from
command_list args = split_from [] args

abbrev joined : List Text → Text
joined [] = []
joined (p ∷ []) = p
joined (p ∷ q ∷ parts) = p ++ (b' ' ∷ joined (q ∷ parts))

-- `execute` is `SetArgs` and `Execute` of the root command.
module _ {W : Type 0} (execute : List Text → Exec W Unit) (flags : Flags) where
  unfoldable pub start_database : List Text → Exec W Unit
  start_database parts =
      with_context (wrap "starting %s failed: %w" (joined parts ∷ []))
        (execute (codes "start" ∷ codes "-d" ∷ parts))

  unfoldable pub start_testing : List Text → Exec W Unit
  unfolding command_list start_database for_each
  start_testing args = do
    for_each (command_list args) start_database
    api_port ←
        with_context (wrap "invalid api-port args, %w" [])
          (lift (flags.get_string (codes "api-port")))
    with_context (wrap "starting api server failed: %w" [])
        (execute (codes "api-server" ∷ codes "-t" ∷ codes "-p" ∷ api_port ∷ []))

-- A command that the arguments can hold: it has parts, and none of them is a dash.
abbrev pub is_command : List Text → Bool
is_command parts = has_parts parts && all_of (λ p. not (text_eq p dash)) parts

-- Commands as arguments: dashes between them.
abbrev pub with_dashes : List (List Text) → List Text
with_dashes [] = []
with_dashes (c ∷ []) = c
with_dashes (c ∷ d ∷ commands) = c ++ (dash ∷ with_dashes (d ∷ commands))

split_from-append :
    (parts more rest : List Text)
    → all_of (λ p. not (text_eq p dash)) more ≡ true
    → split_from parts (more ++ rest) ≡ split_from (parts ++ more) rest
unfolding split_from
split_from-append parts [] rest h = ap (λ l. split_from l rest) (sym (append-nil parts))
split_from-append parts (p ∷ more) rest h =
    ground
      (arith, h, split_from-append (parts ++ p ∷ []) more rest, append_assoc parts (p ∷ []) more)

split_from-cut :
    (parts rest : List Text)
    → has_parts parts ≡ true
    → split_from parts (dash ∷ rest) ≡ parts ∷ split_from [] rest
unfolding split_from
split_from-cut parts rest h = ground (arith, h)

-- Commands that are written one behind the other, with dashes between them, are the commands that are
-- run.
pub command_list-with_dashes :
    (c : List Text) (commands : List (List Text))
    → all_of is_command (c ∷ commands) ≡ true
    → command_list (with_dashes (c ∷ commands)) ≡ c ∷ commands
unfolding command_list split_from
command_list-with_dashes c [] h =
    ap (split_from []) (sym (append-nil c)) ∙ split_from-append [] c [] (ground (arith, h))
command_list-with_dashes c (d ∷ commands) h =
    split_from-append [] c (dash ∷ with_dashes (d ∷ commands)) (ground (arith, h))
    ∙ split_from-cut c (with_dashes (d ∷ commands)) (ground (arith, h))
    ∙ ap (λ l. c ∷ l) (command_list-with_dashes d commands (ground (arith, h)))
