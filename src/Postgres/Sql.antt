-- ===== src/Postgres/Sql.antt =====
-- The PostgreSQL server behind `database/sql`, as a parameter, and quoted identifiers.
pub mod Quote
use dbctl.Base.{
  ℕ, ◌≡◌, refl, ◌≢◌, Bool, true, false, Option, none, some, List, [], ◌∷◌, ◌++◌, Text, codes,
  replace_all, Exec, Error, err, append_assoc, arith, if◌then◌else◌, ◌==◌,
}

-- Connections and transactions are known by numbers. `open` does not reach the server yet; `ping` does.
pub record Sql (W : Type 0) : Type 0 where
  pub open_db : Text → Exec W ℕ
  pub ping : ℕ → Exec W Unit
  pub close : ℕ → Exec W Unit
  pub exec : ℕ → Text → List Text → Exec W Unit
  pub begin_tx : ℕ → Exec W ℕ
  pub tx_exec : ℕ → Text → Exec W Unit
  pub rollback : ℕ → Exec W Unit
  pub commit : ℕ → Exec W Unit

unfoldable pub quote_identifier : Text → Text
unfolding replace_all
quote_identifier name = b'"' ∷ (replace_all name (b'"' ∷ []) (b'"' ∷ b'"' ∷ []) ++ (b'"' ∷ []))
