-- ===== src/Redis/Fixtures.antt =====
-- fixtures.go: the fixture files of a database, as commands and scripts.
pub mod Split
pub mod Laws
use dbctl.Base.{
  ℕ, ◌+◌, ◌≡◌, Bool, true, false, not, ◌&&◌, ◌||◌, List, [], ◌∷◌, if◌then◌else◌, ◌==◌, Text, codes,
  text_eq, is_empty, has_prefix, to_lower, trim_space, Error, errorf, wrap, is_exactly, redis_nil,
  Result, ok, err, Exec, pure, raise, lift, ◌>>=◌, ◌>>◌, try, with_context, for_each, split,
}
use dbctl.Base.Decimal.{format_uint}
use dbctl.Utils.{one_of}
use dbctl.Files.{Files, ext}
use dbctl.Files.Walk.{walk_files}
use dbctl.Redis.Server.{Server}
use Split.{split_command}

-- The names that `getFiles` accepts in a directory.
unfoldable pub is_fixture : Text → Bool
unfolding ext to_lower one_of
is_fixture name = one_of (to_lower (ext name)) (codes ".redis" ∷ codes ".txt" ∷ codes ".lua" ∷ [])

module _ {W : Type 0} (files : Files W) where
  unfoldable pub get_files : Text → Exec W (List Text)
  unfolding walk_files is_fixture
  get_files path = if is_empty path then pure [] else do
    dir ← with_context (wrap "get path information failed, %w" []) (files.is_dir path)
    if dir then walk_files files is_fixture path else pure (path ∷ [])

module _ {W : Type 0} (redis : Server W) where
  -- A reply of `ErrNil` is no error.
  unfoldable pub unless_nil : (Error → Error) → Exec W Unit → Exec W Unit
  unless_nil context m = do
    r ← try m
    elim r [
      | ok _ ↦ pure tt
      | err e ↦ elim (is_exactly redis_nil e) [ true ↦ pure tt | false ↦ raise (context e) ]
    ]

  unfoldable pub run_args : ℕ → List Text → Exec W Unit
  unfolding unless_nil format_uint
  run_args line [] = pure tt
  run_args line (name ∷ params) =
      unless_nil (wrap "line %d (%s): %w" (format_uint line ∷ name ∷ []))
        (redis.command name params)

  -- One round of the loop over the lines.
  unfoldable pub apply_line : ℕ → Text → Exec W Unit
  unfolding run_args split_command trim_space has_prefix
  apply_line n raw =
      let line = trim_space raw in
      if is_empty line || has_prefix line (b'#' ∷ []) then pure tt else do
        args ← with_context (wrap "line %d: %w" (format_uint n ∷ [])) (lift (split_command line))
        run_args n args

  unfoldable pub apply_lines : ℕ → List Text → Exec W Unit
  apply_lines n [] = pure tt
  apply_lines n (line ∷ lines) = apply_line n line >> apply_lines (n + 1) lines

  unfoldable pub apply_commands : Text → Exec W Unit
  unfolding apply_lines apply_line split
  apply_commands content = apply_lines 1 (split content b'\n')

  module _ (files : Files W) where
    unfoldable pub apply_file : Text → Exec W Unit
    unfolding apply_commands unless_nil ext to_lower
    apply_file f = do
      content ← with_context (wrap "read fixture file (%s) failed: %w" (f ∷ [])) (files.read_file f)
      if text_eq (to_lower (ext f)) (codes ".lua")
          then unless_nil (wrap "applying fixture file (%s) failed: %w" (f ∷ []))
              (redis.eval content)
          else with_context (wrap "applying fixture file (%s) failed: %w" (f ∷ []))
              (apply_commands content)

    unfoldable pub apply_fixtures : List Text → Exec W Unit
    unfolding apply_file for_each
    apply_fixtures fs = for_each fs apply_file
