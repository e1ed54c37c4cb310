-- ===== src/Base/Sort.antt =====
-- Sorting by the code points of texts, whose order is that of their UTF-8 bytes.
pub mod Canonical
use mathlib.Core.List.{List, [], ◌∷◌, Perm}
use mathlib.Core.List.Perm
use mathlib.Core.Path.{◌≡◌, refl}
use mathlib.Core.Bool.{Bool, true, false, ◌&&◌, ◌||◌}
use native.Mathlib.Omega.{arith}
use mathlib.Core.Logic.{inl, inr}
use dbctl.Base.Tests.{ltb, ◌==◌, if◌then◌else◌, Bool-cases}
use dbctl.Base.Strings.{Text}

-- `a <= b`
unfoldable pub text_leb : Text → Text → Bool
text_leb [] b = true
text_leb (x ∷ a) [] = false
text_leb (x ∷ a) (y ∷ b) = ltb x y || (x == y && text_leb a b)

pub text_leb_total : (a b : Text) → text_leb a b ≡ false → text_leb b a ≡ true
unfolding text_leb
text_leb_total [] b h = cc
text_leb_total (x ∷ a) [] h = refl
text_leb_total (x ∷ a) (y ∷ b) h = ground (arith, text_leb_total a b)

module _ {A : Type 0} (key : A → Text) where
  unfoldable pub insert_by : A → List A → List A
  unfolding text_leb
  insert_by x [] = x ∷ []
  insert_by x (y ∷ ys) = if text_leb (key x) (key y) then x ∷ y ∷ ys else y ∷ insert_by x ys

  -- The elements in the order of their keys, as `sort.Slice` gives them where the keys differ.
  unfoldable pub sort_by : List A → List A
  unfolding insert_by
  sort_by [] = []
  sort_by (x ∷ xs) = insert_by x (sort_by xs)

  abbrev Below : A → List A → Type 0
  Below x [] = Unit
  Below x (y ∷ ys) = text_leb (key x) (key y) ≡ true

  -- The key of each element is at most that of the next one.
  abbrev pub IsSortedBy : List A → Type 0
  IsSortedBy [] = Unit
  IsSortedBy (x ∷ xs) = Below x xs × IsSortedBy xs

  Below-insert_by :
      (z x : A) (ys : List A)
      → text_leb (key z) (key x) ≡ true
      → Below z ys
      → Below z (insert_by x ys)
  unfolding insert_by
  Below-insert_by z x [] h b = h
  Below-insert_by z x (y ∷ ys) h b = elim (Bool-cases (text_leb (key x) (key y))) [
    | inl p ↦ rw p h
    | inr p ↦ rw p b
  ]

  insert_by-IsSortedBy : (x : A) (ys : List A) → IsSortedBy ys → IsSortedBy (insert_by x ys)
  unfolding insert_by
  insert_by-IsSortedBy x [] s = (tt, tt)
  insert_by-IsSortedBy x (y ∷ ys) (b, s) = elim (Bool-cases (text_leb (key x) (key y))) [
    | inl p ↦ rw p (p, (b, s))
    | inr p ↦
        rw p
          (Below-insert_by y x ys (text_leb_total (key x) (key y) p) b, insert_by-IsSortedBy x ys s)
  ]

  pub sort_by-IsSortedBy : (xs : List A) → IsSortedBy (sort_by xs)
  unfolding sort_by
  sort_by-IsSortedBy [] = tt
  sort_by-IsSortedBy (x ∷ xs) = insert_by-IsSortedBy x (sort_by xs) (sort_by-IsSortedBy xs)

  insert_by-perm : (x : A) (ys : List A) → Perm (insert_by x ys) (x ∷ ys)
  unfolding insert_by
  insert_by-perm x [] = Perm.refl _
  insert_by-perm x (y ∷ ys) = elim (Bool-cases (text_leb (key x) (key y))) [
    | inl p ↦ rw p (Perm.refl _)
    | inr p ↦ rw p (Perm.trans (Perm.cons y (insert_by-perm x ys)) (Perm.swap x y ys))
  ]

  pub sort_by-perm : (xs : List A) → Perm (sort_by xs) xs
  unfolding sort_by
  sort_by-perm [] = Perm.refl []
  sort_by-perm (x ∷ xs) = Perm.trans (insert_by-perm x (sort_by xs)) (Perm.cons x (sort_by-perm xs))

-- `sort.Strings`
unfoldable pub sort : List Text → List Text
unfolding sort_by
sort = sort_by (λ s. s)

-- Each text is at most the next one.
abbrev pub IsSorted : List Text → Type 0
IsSorted = IsSortedBy (λ s. s)

pub sort-IsSorted : (xs : List Text) → IsSorted (sort xs)
unfolding sort
sort-IsSorted = sort_by-IsSortedBy (λ s. s)

pub sort-perm : (xs : List Text) → Perm (sort xs) xs
unfolding sort
sort-perm = sort_by-perm (λ s. s)
