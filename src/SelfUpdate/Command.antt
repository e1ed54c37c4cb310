-- ===== src/SelfUpdate/Command.antt =====
-- cmd/selfupdate.go: whether an update is offered, and what the answer does.
use dbctl.Base.{
  ◌≡◌, List, [], ◌∷◌, ◌++◌, if◌then◌else◌, Text, codes, text_eq, split, arith, Result, ok, Exec,
  pure, lift, ◌>>=◌,
}
use dbctl.SelfUpdate.{Version, greater, parse_version}
use dbctl.SelfUpdate.Order.{is_before, greater_lem}

abbrev first_or_empty : List Text → Text
first_or_empty [] = []
first_or_empty (s ∷ ss) = s

-- The version of the running program.
unfoldable pub current_version : Text → Result Version
unfolding parse_version split
current_version version =
    if text_eq version (codes "snapshot")
    then parse_version (codes "0.0.1")
    else parse_version (first_or_empty (split version b'-'))

abbrev pub line : Text → Text
line s = s ++ (10 ∷ [])

-- The latest release, a line of the standard input, and the update itself, as arguments.
module _ {W : Type 0} (latest_version : Exec W Version) (read_line : Exec W Text)
    (update : Exec W Unit) where
  unfoldable pub ask : Exec W Unit
  ask = do input ← read_line; if text_eq input (line (codes "y")) then update else pure tt

  unfoldable pub do_self_update : Text → Exec W Unit
  unfolding current_version greater ask
  do_self_update version = do
    latest ← latest_version
    v ← lift (current_version version)
    if greater latest v then pure tt else ask

  -- When both versions are read, nothing is asked if the latest release is older than the running
  -- program, and otherwise the update is offered, also when the two are the same version.
  do_self_update_lem :
      (version : Text) (w : W) (latest v : Version)
      → (latest_version w).0 ≡ ok latest
      → current_version version ≡ ok v
      → do_self_update version w
        ≡ (if is_before latest v then (ok tt, (latest_version w).1) else ask (latest_version w).1)
  unfolding do_self_update
  do_self_update_lem version w latest v h k = ground (arith, h, k, greater_lem latest v)
