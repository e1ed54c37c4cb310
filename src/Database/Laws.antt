-- ===== src/Database/Laws.antt =====
-- Instances are found again by the labels that they were started with.
use dbctl.Base.{
  ℕ, ◌^◌, ◌<◌, ◌≡◌, ◌≢◌, refl, false, [], ◌∷◌, Text, text_discrete, is_empty, arith, ok,
}
use dbctl.Base.Decimal.{format_uint, parse_uint-format_uint, format_uint-ne-nil}
use dbctl.Base.Dict
use dbctl.Container.{Container, label_managed_by, label_dbctl}
use dbctl.Database.{instance_of, start_labels}

is_empty-false : (s : Text) → s ≢ [] → is_empty s ≡ false
is_empty-false [] h = absurd (h refl)
is_empty-false (c ∷ s) h = refl

-- The container of an instance as `CreateContainer` labels it.
abbrev pub started : Text → Text → Text → Text → Text → Text → ℕ → Text → Container
started id cname db_type user pass name port label = record {
  id = id;
  name = cname;
  labels =
      Dict.insert_all (start_labels db_type user pass name port label)
        ((label_managed_by, label_dbctl) ∷ []);
}

-- The details of a started instance are read back from its container: whatever type, user, password,
-- name, label and port below 2^32 it was started with.
pub instance_of-started :
    (id cname db_type user pass name label : Text) (port : ℕ)
    → port < 2 ^ 32
    → instance_of db_type (started id cname db_type user pass name port label)
      ≡ ok (record {
        id = id;
        db_type = db_type;
        label = label;
        port = port;
        user = user;
        pass = pass;
        name = name;
      })
unfolding instance_of start_labels text_discrete Dict.get
instance_of-started id cname db_type user pass name [] port h = ground (
  arith,
  parse_uint-format_uint 32 port h,
  is_empty-false (format_uint port) (format_uint-ne-nil port),
)
instance_of-started id cname db_type user pass name (c ∷ label) port h = ground (
  arith,
  parse_uint-format_uint 32 port h,
  is_empty-false (format_uint port) (format_uint-ne-nil port),
)
