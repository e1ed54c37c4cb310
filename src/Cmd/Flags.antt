-- ===== src/Cmd/Flags.antt =====
-- What the commands read of their flags, through the package cobra: parameters.
use dbctl.Base.{ℕ, Bool, Text, Result}
use dbctl.Base.Decimal.{ℤ}

pub record Flags : Type 0 where
  pub get_uint32 : Text → Result ℕ
  pub get_int : Text → Result ℤ
  pub get_string : Text → Result Text
  pub get_bool : Text → Result Bool
