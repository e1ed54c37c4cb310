-- ===== src/Base/Sort/Canonical.antt =====
-- Sorting forgets the order in which the texts came.
use mathlib.Core.List.{List, [], ◌∷◌, Perm, foldr}
use mathlib.Core.List.Perm
use mathlib.Core.Path.{◌≡◌, refl, sym, ap, ap₂, ◌∙◌}
use mathlib.Core.Bool.{true, false}
use native.Mathlib.Omega.{arith}
use mathlib.Core.Logic.{inl, inr}
use dbctl.Base.Tests.{if◌then◌else◌, Bool-cases}
use dbctl.Base.Strings.{Text}
use dbctl.Base.Sort.{text_leb, text_leb_total, insert_by, sort_by, sort}

text_leb_antisymm : (a b : Text) → text_leb a b ≡ true → text_leb b a ≡ true → a ≡ b
unfolding text_leb
text_leb_antisymm [] [] h k = refl
text_leb_antisymm [] (y ∷ b) h k = cc
text_leb_antisymm (x ∷ a) [] h k = cc
text_leb_antisymm (x ∷ a) (y ∷ b) h k =
    ap₂ (◌∷◌) (ground (arith, h, k))
      (text_leb_antisymm a b (ground (arith, h, k)) (ground (arith, h, k)))

text_leb_trans : (a b c : Text) → text_leb a b ≡ true → text_leb b c ≡ true → text_leb a c ≡ true
unfolding text_leb
text_leb_trans [] b c h k = refl
text_leb_trans (x ∷ a) [] c h k = cc
text_leb_trans (x ∷ a) (y ∷ b) [] h k = cc
text_leb_trans (x ∷ a) (y ∷ b) (z ∷ c) h k = ground (arith, h, k, text_leb_trans a b c)

abbrev insert : Text → List Text → List Text
insert = insert_by (λ s. s)

-- Two texts before a list, in their order.
two_comm :
    (x y : Text) (l : List Text)
    → (if text_leb x y then x ∷ y ∷ l else y ∷ x ∷ l)
      ≡ (if text_leb y x then y ∷ x ∷ l else x ∷ y ∷ l)
two_comm x y l = elim (Bool-cases (text_leb x y)) [
  | inr p ↦ rw (p, text_leb_total x y p) refl
  | inl p ↦ elim (Bool-cases (text_leb y x)) [
    | inr q ↦ rw (p, q) refl
    | inl q ↦
        rw (p, q) (ap₂ (λ a b. a ∷ b ∷ l) (text_leb_antisymm x y p q) (text_leb_antisymm y x q p))
  ]
]

-- A text that stays behind `x` and one that goes before it.
insert_before :
    (x y z : Text) (l : List Text)
    → text_leb x z ≡ true
    → text_leb y z ≡ false
    → insert x (insert y (z ∷ l)) ≡ insert y (insert x (z ∷ l))
unfolding insert_by
insert_before x y z l p q = elim (Bool-cases (text_leb y x)) [
  | inl r ↦ absurd (ground (arith, q, text_leb_trans y x z r p))
  | inr r ↦ rw (p, q) (rw (p, r) refl)
]

insert_comm : (x y : Text) (l : List Text) → insert x (insert y l) ≡ insert y (insert x l)
unfolding insert_by
insert_comm x y [] = two_comm x y []
insert_comm x y (z ∷ l) = elim (Bool-cases (text_leb x z)) [
  | inl p ↦ elim (Bool-cases (text_leb y z)) [
    | inl q ↦ rw (p, q) (rw p (two_comm x y (z ∷ l)))
    | inr q ↦ insert_before x y z l p q
  ]
  | inr p ↦ elim (Bool-cases (text_leb y z)) [
    | inl q ↦ sym (insert_before y x z l q p)
    | inr q ↦ rw (p, q) (rw p (ap (z ∷◌) (insert_comm x y l)))
  ]
]

sort-foldr : (xs : List Text) → sort xs ≡ foldr insert [] xs
unfolding sort sort_by
sort-foldr [] = refl
sort-foldr (x ∷ xs) = ap (insert x) (sort-foldr xs)

-- Lists with the same texts, each as often, are sorted alike.
pub sort-eq_of_perm : (xs ys : List Text) → Perm xs ys → sort xs ≡ sort ys
sort-eq_of_perm xs ys p =
    sort-foldr xs ∙ Perm.foldr-eq (hlevel) insert insert_comm p [] ∙ sym (sort-foldr ys)
