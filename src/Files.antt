-- ===== src/Files.antt =====
-- The file system that the program reads, as a parameter, and the names of `path/filepath`.
pub mod Walk
pub mod Paths
use dbctl.Base.{
  ℕ, ◌≡◌, ◌≢◌, refl, sym, ◌∙◌, ap, Bool, true, false, not, ◌&&◌, List, [], ◌∷◌, ◌++◌, append_assoc,
  append-nil, arith, if◌then◌else◌, ◌==◌, Text, codes, is_empty, Exec, Result, ok, err, wrap,
  errorf, pure, raise, ◌>>=◌, ◌>>◌, with_context,
}
use mathlib.Core.List.{reverse, reverse-cons, reverse-reverse}

-- An entry of `filepath.WalkDir`: its path, its last name, and whether it is a directory.
pub record DirEntry : Type 0 where
  pub path : Text
  pub name : Text
  pub is_dir : Bool

-- `is_dir` is `os.Stat` with `IsDir`; `is_missing` is `os.Stat` with `os.IsNotExist`. `walk` gives the
-- entries in the order of the walk, or the first error that the walk meets.
pub record Files (W : Type 0) : Type 0 where
  pub is_dir : Text → Exec W Bool
  pub is_missing : Text → Exec W Bool
  pub abs : Text → Exec W Text
  pub walk : Text → Exec W (List DirEntry)
  pub read_file : Text → Exec W Text

ext_from : Text → Text → Text
ext_from [] out = []
ext_from (c ∷ s) out =
    let more = ext_from s (c ∷ out) in if c == b'/' then [] else if c == b'.' then c ∷ out else more

-- `filepath.Ext`
unfoldable pub ext : Text → Text
unfolding ext_from
ext name = ext_from (reverse name) []

base_from : Text → Text → Text
base_from [] out = out
base_from (c ∷ s) out = let more = base_from s (c ∷ out) in if c == b'/' then out else more

-- `filepath.Base` of a path that does not end in a separator
unfoldable pub base : Text → Text
unfolding base_from
base path = if is_empty path then b'.' ∷ [] else base_from (reverse path) []

abbrev pub no_slash : Text → Bool
no_slash [] = true
no_slash (c ∷ s) = not (c == b'/') && no_slash s

pub no_slash-append :
    (s t : Text) → no_slash s ≡ true → no_slash t ≡ true → no_slash (s ++ t) ≡ true
no_slash-append [] t h k = k
no_slash-append (c ∷ s) t h k = ground (arith, no_slash-append s t)

no_slash-reverse : (s : Text) → no_slash s ≡ true → no_slash (reverse s) ≡ true
no_slash-reverse [] h = refl
no_slash-reverse (c ∷ s) h =
    ap no_slash (reverse-cons c s)
    ∙ no_slash-append (reverse s) (c ∷ []) (no_slash-reverse s (ground arith)) (ground arith)

base_from_lem : (s out : Text) → no_slash s ≡ true → base_from s out ≡ reverse s ++ out
unfolding base_from
base_from_lem [] out h = refl
base_from_lem (c ∷ s) out h =
    ground (arith, base_from_lem s (c ∷ out))
    ∙ sym (ap (λ x. x ++ out) (reverse-cons c s) ∙ append_assoc (reverse s) (c ∷ []) out)

-- A name with no separator is its own last element.
pub base-no_slash : (s : Text) → no_slash s ≡ true → s ≢ [] → base s ≡ s
unfolding base
base-no_slash [] h n = absurd (n refl)
base-no_slash (c ∷ s) h n =
    base_from_lem (reverse (c ∷ s)) [] (no_slash-reverse (c ∷ s) h)
    ∙ append-nil (reverse (reverse (c ∷ s)))
    ∙ reverse-reverse (c ∷ s)
