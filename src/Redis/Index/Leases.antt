-- ===== src/Redis/Index/Leases.antt =====
-- redis.go: the indexes that are handed out, as a list, and the keys that mark them.
use dbctl.Base.{
  ℕ, ◌≡◌, Bool, false, not, ◌&&◌, ◌==◌, List, [], ◌∷◌, ◌++◌, Text, text_eq, text_eq_refl, All,
  some_of, keep, Bool-cases, inl, inr, arith,
}
use dbctl.Base.Decimal.{format_uint, format_uint-injective}
use native.Mathlib.Decide.{ℕ_discrete}
use dbctl.Redis.Index.{index_key, index_key_prefix}

drop_prefix : (p s t : Text) → p ++ s ≡ p ++ t → s ≡ t
drop_prefix [] s t e = e
drop_prefix (c ∷ p) s t e = drop_prefix p s t (cc e)

-- Two indexes have the same mark only if they are the same.
pub index_key-eq : (i j : ℕ) → text_eq (index_key i) (index_key j) ≡ (i == j)
index_key-eq i j = elim (ℕ_discrete i j) [
  | yes e ↦ ground (arith, e, text_eq_refl (index_key j))
  | no n ↦ ground (arith, differ)
]
  where
    differ : index_key i ≡ index_key j → i ≡ j
    differ e =
        format_uint-injective i j (drop_prefix index_key_prefix (format_uint i) (format_uint j) e)

abbrev pub member : ℕ → List ℕ → Bool
member i = some_of (λ j. i == j)

abbrev pub remove : ℕ → List ℕ → List ℕ
remove i = keep (λ j. not (j == i))

-- No index stands twice in the list.
abbrev pub Distinct : List ℕ → Type 0
Distinct [] = Unit {0}
Distinct (i ∷ l) = (member i l ≡ false) × Distinct l

pub member-remove : (i j : ℕ) (l : List ℕ) → member j (remove i l) ≡ (not (j == i) && member j l)
member-remove i j [] = ground arith
member-remove i j (x ∷ l) = ground (arith, member-remove i j l)

pub remove-Distinct : (i : ℕ) (l : List ℕ) → Distinct l → Distinct (remove i l)
remove-Distinct i [] d = tt
remove-Distinct i (x ∷ l) (new, d) = ground (arith, new, remove-Distinct i l d, member-remove i x l)

pub remove-All : (P : ℕ → Type 0) (i : ℕ) (l : List ℕ) → All P l → All P (remove i l)
remove-All P i [] a = tt
remove-All P i (x ∷ l) (p, a) = elim (Bool-cases (x == i)) [
  | inl e ↦ rw e (remove-All P i l a)
  | inr e ↦ rw e (p, remove-All P i l a)
]
