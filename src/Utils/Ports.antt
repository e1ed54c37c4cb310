-- ===== src/Utils/Ports.antt =====
-- utils.go: the port that `GetAvailablePort` ends with.
use mathlib.Core.Path.{subst}
use dbctl.Base.{
  ℕ, zero, suc, ◌≤◌, ◌≡◌, Bool, true, false, some, arith, ok, Result-cases, inl, inr, Exec,
}
use dbctl.Utils.{get_random_port, get_available_port, get_random_port_bounds}

module _ {W : Type 0} (rand : Exec W ℕ) (available : ℕ → Exec W Bool) where
  -- A port that `get_available_port` gives is one that an unprivileged process may use, and it was
  -- found to be free.
  pub get_available_port_lem :
      (fuel : ℕ) (w : W) (p : ℕ)
      → (get_available_port rand available fuel w).0 ≡ ok (some p)
      → (1024 ≤ p) × (p ≤ 65535) × ((v : W) × ((available p v).0 ≡ ok true))
  unfolding get_available_port
  get_available_port_lem zero w p h = ground (arith, h)
  get_available_port_lem (suc fuel) w p h = elim (Result-cases (rand w).0) [
    | inr (e, q) ↦ ground (arith, h, q)
    | inl (r, q) ↦ elim (Result-cases (available (get_random_port r) (rand w).1).0) [
      | inr (e, k) ↦ ground (arith, h, q, k)
      | inl (true, k) ↦
          let same : get_random_port r ≡ p = ground (arith, h, q, k) in
          subst (λ n. (1024 ≤ n) × (n ≤ 65535) × ((v : W) × ((available n v).0 ≡ ok true))) same
            (let (low, high) = get_random_port_bounds r in (low, high, ((rand w).1, k)))
      | inl (false, k) ↦
          get_available_port_lem fuel (available (get_random_port r) (rand w).1).1 p
            (ground (arith, h, q, k))
    ]
  ]
