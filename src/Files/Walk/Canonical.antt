-- ===== src/Files/Walk/Canonical.antt =====
-- The files of a directory do not depend on the order in which the walk meets them.
use dbctl.Base.{
  ◌≡◌, refl, Bool, not, ◌&&◌, if◌then◌else◌, Bool-cases, Option, none, some, List, [], ◌∷◌, Text,
  arith, ok, inl, inr,
}
use mathlib.Core.List.{Perm, filter_map}
use mathlib.Core.List.Perm
use dbctl.Base.Sort.{sort}
use dbctl.Base.Sort.Canonical.{sort-eq_of_perm}
use dbctl.Files.{DirEntry, Files}
use dbctl.Files.Walk.{accepted, walk_files}

module _ (accept : Text → Bool) where
  abbrev accepted_path : DirEntry → Option Text
  accepted_path d = if not d.is_dir && accept d.name then some d.path else none

  accepted-filter_map :
      (entries : List DirEntry) → accepted accept entries ≡ filter_map accepted_path entries
  unfolding filter_map
  accepted-filter_map [] = refl
  accepted-filter_map (d ∷ ds) = elim (Bool-cases (not d.is_dir && accept d.name)) [
    | inl p ↦ rw (p, accepted-filter_map ds) refl
    | inr p ↦ rw (p, accepted-filter_map ds) refl
  ]

  accepted-perm :
      (xs ys : List DirEntry) → Perm xs ys → Perm (accepted accept xs) (accepted accept ys)
  accepted-perm xs ys p =
      rw (accepted-filter_map xs, accepted-filter_map ys) (Perm.filter_map accepted_path p)

module _ {V W : Type 0} (here : Files V) (there : Files W) (accept : Text → Bool) where
  -- Two file systems whose walks of a directory meet the same entries, in whatever order, give the
  -- same files in the same order.
  pub walk_files-canonical :
      (path root root' : Text) (v : V) (w : W) (xs ys : List DirEntry)
      → (here.abs path v).0 ≡ ok root
      → (there.abs path w).0 ≡ ok root'
      → (here.walk root (here.abs path v).1).0 ≡ ok xs
      → (there.walk root' (there.abs path w).1).0 ≡ ok ys
      → Perm xs ys
      → (walk_files here accept path v).0 ≡ (walk_files there accept path w).0
  unfolding walk_files
  walk_files-canonical path root root' v w xs ys a b c d p =
      let same : sort (accepted accept xs) ≡ sort (accepted accept ys) =
        sort-eq_of_perm _ _ (accepted-perm accept xs ys p) in
      ground (arith, a, b, c, d, same)
