-- ===== src/Base/Frame.antt =====
-- Calls that leave something about the world as it was.
use mathlib.Core.Path.{◌≡◌, refl, ◌∙◌}
use mathlib.Core.Logic.{inl, inr}
use mathlib.Core.List.{List, [], ◌∷◌}
use native.Mathlib.Omega.{arith}
use dbctl.Base.Outcome.{Exec, ◌>>=◌, defer, for_each, Result-cases}

-- What is seen of the world at each index.
module _ {W I X : Type 0} (seen : W → I → X) where
  abbrev pub Stays : {A : Type 0} → Exec W A → Type 0
  Stays m = (w : W) (i : I) → seen (m w).1 i ≡ seen w i

  module _ {A B : Type 0} where
    pub bind-Stays :
        (m : Exec W A) (f : A → Exec W B) → Stays m → ((a : A) → Stays (f a)) → Stays (m >>= f)
    bind-Stays m f h k w i = elim (Result-cases (m w).0) [
      | inl (a, q) ↦ ground (arith, q, k a (m w).1 i, h w i)
      | inr (e, q) ↦ ground (arith, q, h w i)
    ]

    pub defer-Stays :
        (closer : Exec W B) (m : Exec W A) → Stays closer → Stays m → Stays (defer closer m)
    defer-Stays closer m h k w i = h (m w).1 i ∙ k w i

  pub for_each-Stays :
      {A : Type 0} (xs : List A) (f : A → Exec W Unit)
      → ((a : A) → Stays (f a))
      → Stays (for_each xs f)
  unfolding for_each
  for_each-Stays [] f h = λ w i. refl
  for_each-Stays (x ∷ xs) f h =
      bind-Stays (f x) (λ _. for_each xs f) (h x) (λ _. for_each-Stays xs f h)
