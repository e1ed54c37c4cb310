-- ===== src/Base/Gives.antt =====
-- Calls whose results have something, whenever they succeed.
use mathlib.Core.Bool.{Bool, true, false}
use mathlib.Core.Path.{◌≡◌, subst}
use dbctl.Base.Outcome.{Exec, pure, ◌>>=◌, Result, ok, err, then_result}
use dbctl.Base.Tests.{if◌then◌else◌}

-- What a result has when it is a success.
abbrev pub Holds : {A : Type 0} → (A → Type 0) → Result A → Type 0
Holds P (ok a) = P a
Holds P (err e) = Unit

module _ {A : Type 0} (P : A → Type 0) where
  pub Holds-ok : (r : Result A) (a : A) → Holds P r → r ≡ ok a → P a
  Holds-ok r a p q = subst (Holds P) q p

  pub Holds-if : (t : Bool) (r s : Result A) → Holds P r → Holds P s → Holds P (if t then r else s)
  Holds-if true r s p q = p
  Holds-if false r s p q = q

pub Holds-then_result :
    {A B : Type 0} (P : A → Type 0) (Q : B → Type 0) (r : Result A) (f : A → Result B)
    → Holds P r
    → ((a : A) → P a → Holds Q (f a))
    → Holds Q (then_result r f)
Holds-then_result P Q (ok a) f p q = q a p
Holds-then_result P Q (err e) f p q = tt

module _ {W : Type 0} where
  -- A call that has it whenever it succeeds.
  abbrev pub Gives : {A : Type 0} → (A → Type 0) → Exec W A → Type 0
  Gives P m = (w : W) → Holds P (m w).0

  module _ {A B : Type 0} where
    pub bind-Gives :
        (P : A → Type 0) (Q : B → Type 0) (m : Exec W A) (f : A → Exec W B)
        → Gives P m
        → ((a : A) → P a → Gives Q (f a))
        → Gives Q (m >>= f)
    bind-Gives P Q m f p q w = rest (m w).0 (m w).1 (p w)
      where
        rest : (r : Result A) (v : W) → Holds P r → Holds Q (((λ _. (r, v)) >>= f) w).0
        rest (ok a) v h = q a h v
        rest (err e) v h = tt

    -- What is filled in by a value that is read has what every such filling has.
    pub filled-Gives :
        (Q : B → Type 0) (m : Exec W A) (fill : A → B)
        → ((a : A) → Q (fill a))
        → Gives Q (m >>= λ a. pure (fill a))
    filled-Gives Q m fill q w = rest (m w).0 (m w).1
      where
        rest : (r : Result A) (v : W) → Holds Q (((λ _. (r, v)) >>= λ a. pure (fill a)) w).0
        rest (ok a) v = q a
        rest (err e) v = tt
