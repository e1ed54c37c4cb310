-- ===== src/Files/Walk.antt =====
-- The part of `getFiles` that the packages pg, redis and mongodb share: the files of a walk that are
-- accepted by their name, sorted by path.
pub mod Canonical
use dbctl.Base.{
  ◌≡◌, Bool, not, ◌&&◌, List, map, keep, Text, arith, Exec, ok, pure, ◌>>=◌, Result-cases, inl, inr,
}
use mathlib.Core.List.{Perm}
use mathlib.Core.Path.{subst}
use dbctl.Base.Sort.{sort, IsSorted, sort-IsSorted, sort-perm}
use dbctl.Files.{DirEntry, Files}

abbrev pub accepted : (Text → Bool) → List DirEntry → List Text
accepted accept entries = map (λ d. d.path) (keep (λ d. not d.is_dir && accept d.name) entries)

module _ {W : Type 0} (files : Files W) (accept : Text → Bool) where
  unfoldable pub walk_files : Text → Exec W (List Text)
  unfolding sort
  walk_files path = do
    abs_path ← files.abs path
    entries ← files.walk abs_path
    pure (sort (accepted accept entries))

  -- The files come sorted by path, and are those of the walk whose name is accepted.
  pub walk_files_lem :
      (path root : Text) (w : W) (out : List Text)
      → (files.abs path w).0 ≡ ok root
      → (walk_files path w).0 ≡ ok out
      → (entries : List DirEntry) × ((files.walk root (files.abs path w).1).0 ≡ ok entries)
        × IsSorted out
        × Perm out (accepted accept entries)
  unfolding walk_files
  walk_files_lem path root w out at_root h =
      elim (Result-cases (files.walk root (files.abs path w).1).0) [
        | inl (entries, q) ↦
            let same : sort (accepted accept entries) ≡ out = ground arith in
            (
              entries,
              q,
              subst IsSorted same (sort-IsSorted (accepted accept entries)),
              subst (λ l. Perm l (accepted accept entries)) same
                  (sort-perm (accepted accept entries)),
            )
        | inr (e, q) ↦ absurd (ground arith)
      ]
