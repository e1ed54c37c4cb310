-- ===== src/Mongo/Client.antt =====
-- The MongoDB driver and the JSON decoder, as a parameter.
use dbctl.Base.{ℕ, List, Text, Exec, Result}

-- Clients are known by numbers. `decode_json` reads an array of documents.
pub record Client (W : Type 0) : Type 0 where
  pub connect : Text → Exec W ℕ
  pub ping : ℕ → Exec W Unit
  pub disconnect : ℕ → Exec W Unit
  pub drop_database : ℕ → Text → Exec W Unit
  pub insert_many : ℕ → Text → Text → List Text → Exec W Unit
  pub decode_json : Text → Result (List Text)
