-- ===== src/Base/Outcome.antt =====
-- Go errors as values, and the monad of calls that may fail and change the world.
use Prim.Native.Nat.{ℕ}
use Prim.Native.String.{String}
use mathlib.Core.Path.{◌≡◌, refl}
use mathlib.Core.Logic.{◌⊎◌, inl, inr}
use mathlib.Core.Bool.{Bool, true, false}
use mathlib.Core.List.{List, [], ◌∷◌}
use native.Mathlib.Omega.{arith}
use dbctl.Base.Strings.{Text}
use dbctl.Base.Tests.{◌==◌}

-- The errors that the program compares by identity.
pub data Sentinel : Type 0 where
  no_instance ambiguous_instance database_not_exists : Sentinel
  deadline_exceeded redis_nil invalid_database_type : Sentinel

-- `external` is an error of a library, a service or the system, with its text.
-- `errorf` is `fmt.Errorf` or `errors.New`: the format, and the arguments that it prints.
-- `wrap` is `fmt.Errorf` with `%w`. `panic` is a run time panic.
pub data Error : Type 0 where
  external : Text → Error
  sentinel : Sentinel → Error
  errorf : String → List Text → Error
  wrap : String → List Text → Error → Error
  panic : String → Error

sentinel_code : Sentinel → ℕ
sentinel_code no_instance = 0
sentinel_code ambiguous_instance = 1
sentinel_code database_not_exists = 2
sentinel_code deadline_exceeded = 3
sentinel_code redis_nil = 4
sentinel_code invalid_database_type = 5

-- `errors.Is(err, target)`
unfoldable pub wraps : Sentinel → Error → Bool
unfolding sentinel_code
wraps t (sentinel s) = sentinel_code t == sentinel_code s
wraps t (wrap format args e) = wraps t e
wraps t e = false

-- `err == target`
unfoldable pub is_exactly : Sentinel → Error → Bool
unfolding sentinel_code
is_exactly t (sentinel s) = sentinel_code t == sentinel_code s
is_exactly t e = false

pub data Result {ℓ} (A : Type ℓ) : Type ℓ where
  ok : A → Result A
  err : Error → Result A

abbrev pub is_ok {ℓ} : {A : Type ℓ} → Result A → Bool
is_ok (ok a) = true
is_ok (err e) = false

-- Chains of fallible steps that leave the world alone.
abbrev pub then_result {ℓ κ} : {A : Type ℓ} {B : Type κ} → Result A → (A → Result B) → Result B
then_result (ok a) f = f a
then_result (err e) f = err e

-- A call, with the world before it, gives a result and the world after it.
abbrev pub Exec : Type 0 → Type 0 → Type 0
Exec W A = W → Result A × W

module _ {W : Type 0} where
  abbrev pub pure : {A : Type 0} → A → Exec W A
  pure a w = (ok a, w)

  abbrev pub raise : {A : Type 0} → Error → Exec W A
  raise e w = (err e, w)

  abbrev pub lift : {A : Type 0} → Result A → Exec W A
  lift r w = (r, w)

  infixl 5 ◌>>=◌ ◌>>◌
  abbrev pub ◌>>=◌ : {A B : Type 0} → Exec W A → (A → Exec W B) → Exec W B
  ◌>>=◌ m f w = elim (m w).0 [ ok a ↦ f a (m w).1 | err e ↦ (err e, (m w).1) ]

  abbrev pub ◌>>◌ : {A B : Type 0} → Exec W A → Exec W B → Exec W B
  m >> k = m >>= λ _. k

  -- The result as a value, for code that looks at the error itself.
  abbrev pub try : {A : Type 0} → Exec W A → Exec W (Result A)
  try m w = (ok (m w).0, (m w).1)

  -- `if err := m; err != nil { return context(err) }`
  abbrev pub with_context : {A : Type 0} → (Error → Error) → Exec W A → Exec W A
  with_context c m w = (elim (m w).0 [ ok a ↦ ok a | err e ↦ err (c e) ], (m w).1)

  -- `defer closer()`: the closer runs whatever the result, and its error is dropped.
  abbrev pub defer : {A B : Type 0} → Exec W B → Exec W A → Exec W A
  defer closer m w = ((m w).0, (closer (m w).1).1)

  -- A loop over a list that stops at the first error.
  unfoldable pub for_each : {A : Type 0} → List A → (A → Exec W Unit) → Exec W Unit
  for_each [] f = pure tt
  for_each (x ∷ xs) f = f x >> for_each xs f

  -- `if !test { return err }`
  abbrev pub guard : Bool → Error → Exec W Unit
  guard true e = pure tt
  guard false e = raise e

-- To split on a computed result and keep the equation.
pub Result-cases {ℓ} :
    {A : Type ℓ} (r : Result A) → ((a : A) × (r ≡ ok a)) ⊎ ((e : Error) × (r ≡ err e))
Result-cases (ok a) = inl (a, refl)
Result-cases (err e) = inr (e, refl)

module _ {W : Type 0} {A : Type 0} (f : A → Exec W Unit) where
  -- A loop that succeeds has made its first step, and goes on from there.
  pub for_each-cons :
      (x : A) (xs : List A) (w : W)
      → (for_each (x ∷ xs) f w).0 ≡ ok tt
      → ((f x w).0 ≡ ok tt)
        × ((for_each xs f (f x w).1).0 ≡ ok tt)
        × ((for_each (x ∷ xs) f w).1 ≡ (for_each xs f (f x w).1).1)
  unfolding for_each
  for_each-cons x xs w h = ground arith

module _ {W : Type 0} {A B C : Type 0} (open_it : Exec W A) (closer : A → Exec W C)
    (body : A → Exec W B) where
  -- A call that succeeds has run its body to the end, and has closed what it opened.
  pub defer-ok :
      (w : W) (b : B)
      → ((open_it >>= λ x. defer (closer x) (body x)) w).0 ≡ ok b
      → (a : A) × (((body a (open_it w).1).0 ≡ ok b)
          × (((open_it >>= λ x. defer (closer x) (body x)) w).1
              ≡ (closer a (body a (open_it w).1).1).1))
  defer-ok w b h = elim (Result-cases (open_it w).0) [
    | inl (a, q) ↦ (a, (ground (arith, q, h), ground (arith, q)))
    | inr (e, q) ↦ absurd (ground (arith, q, h))
  ]

module _ {W : Type 0} {A B : Type 0} where
  -- A chain that succeeds has made its first call, and goes on from there.
  pub bind-ok :
      (m : Exec W A) (f : A → Exec W B) (w : W) (b : B)
      → ((m >>= f) w).0 ≡ ok b
      → (a : A) × (((m w).0 ≡ ok a) × ((f a (m w).1).0 ≡ ok b))
  bind-ok m f w b h = elim (Result-cases (m w).0) [
    | inl (a, q) ↦ (a, (q, ground (arith, q, h)))
    | inr (e, q) ↦ absurd (ground (arith, q, h))
  ]

  -- A chain that succeeds ends as the rest of it does, behind its first call.
  pub bind-ends :
      (m : Exec W A) (f : A → Exec W B) (w : W) (b : B)
      → ((m >>= f) w).0 ≡ ok b
      → (a : A) × (((m w).0 ≡ ok a) × ((m >>= f) w ≡ f a (m w).1))
  bind-ends m f w b h = elim (Result-cases (m w).0) [
    | inl (a, q) ↦ (a, (q, ground (arith, q)))
    | inr (e, q) ↦ absurd (ground (arith, q, h))
  ]

module _ {W : Type 0} {A : Type 0} where
  -- A context changes errors only.
  pub with_context-ok :
      (c : Error → Error) (m : Exec W A) (w : W) (a : A)
      → (with_context c m w).0 ≡ ok a
      → (m w).0 ≡ ok a
  with_context-ok c m w a h = elim (Result-cases (m w).0) [
    | inl (x, q) ↦ ground (arith, q, h)
    | inr (e, q) ↦ absurd (ground (arith, q, h))
  ]
