-- ===== src/Redis/Index.antt =====
-- redis.go: handing out the numbered databases of an instance, and taking them back.
pub mod Claims
pub mod Acquire
pub mod Leases
pub mod Pool
use dbctl.Base.{
  ℕ, zero, suc, ◌+◌, ◌-◌, ◌≡◌, Bool, true, false, not, List, [], ◌∷◌, ◌++◌, if◌then◌else◌, ◌==◌,
  ltb, leb, length, Text, codes, trim_prefix, is_empty, Error, errorf, wrap, is_exactly, wraps,
  redis_nil, Result, ok, err, Exec, pure, raise, lift, ◌>>=◌, ◌>>◌, try, defer, for_each,
  with_context, Option, none, some,
}
use dbctl.Base.Decimal.{ℤ, pos, negsuc, format_uint, atoi}
use dbctl.Net.Url
use dbctl.Container.{Env}
use dbctl.Database.Host.{host_uri}
use dbctl.Redis.{Config, admin_uri, uri, new, with_host}
use dbctl.Redis.Server.{Server}

abbrev pub default_database_count : ℕ
default_database_count = 16

abbrev pub index_key_prefix : Text
index_key_prefix = codes "dbctl:db:"

-- The key that marks an index as handed out.
abbrev pub index_key : ℕ → Text
index_key n = index_key_prefix ++ format_uint n

abbrev count_of : Result ℤ → ℕ
count_of (ok (pos n)) = if ltb n 2 then default_database_count else n
count_of (ok (negsuc n)) = default_database_count
count_of (err e) = default_database_count

abbrev count_from : Result (List Text) → ℕ
count_from (ok (k ∷ v ∷ [])) = count_of (atoi v)
count_from r = default_database_count

module _ {W : Type 0} (redis : Server W) where
  open redis use {dial, close, config_get, setnx, select, flushdb, del}

  unfoldable pub database_count : Exec W ℕ
  unfolding atoi
  database_count = do values ← try (config_get (codes "databases")); pure (count_from values)

  -- The body of the loop of the script, once `SETNX` has replied 1.
  unfoldable pub hand_out : ℕ → Exec W ℤ
  hand_out index = do select (pos index); flushdb; select (pos 0); pure (pos index)

  -- `for index = first, first + rounds - 1` of the script
  unfoldable pub claim : ℕ → ℕ → Exec W ℤ
  unfolding hand_out
  claim zero index = pure (negsuc 0)
  claim (suc rounds) index = do
    won ← setnx (index_key index) (codes "1")
    elim (won == 1) [ true ↦ hand_out index | false ↦ claim rounds (suc index) ]

  abbrev pub index_of : ℕ → ℤ → Result ℕ
  index_of count (pos n) = ok n
  index_of count (negsuc n) = err (
      errorf
        "no free redis database left, all %d indexes of this instance are in use, remove the databases you no longer need"
        (format_uint (count - 1) ∷ []))

  unfoldable pub acquire_db_index : Exec W ℕ
  unfolding database_count claim
  acquire_db_index = do
    count ← database_count
    index ← claim (count - 1) 1
    lift (index_of count index)

  -- The script of `RemoveDB`; a number that is not negative prints in Lua as it does in Go.
  unfoldable pub release : ℤ → Exec W Unit
  release (pos n) = do select (pos n); flushdb; select (pos 0); del (index_key n)
  release (negsuc n) = do
    select (negsuc n)
    flushdb
    select (pos 0)
    del (index_key_prefix ++ (b'-' ∷ format_uint (n + 1)))

  abbrev pub is_zero : ℤ → Bool
  is_zero (pos zero) = true
  is_zero n = false

  abbrev pub ignore_nil : Exec W Unit → Exec W Unit
  ignore_nil m = do
    r ← try m
    elim r [
      | ok _ ↦ pure tt
      | err e ↦ elim (wraps redis_nil e) [ true ↦ pure tt | false ↦ raise e ]
    ]

  module _ (env : Env) where
    unfoldable pub remove_db : Config → Text → Exec W Unit
    unfolding Url.parse trim_prefix atoi release admin_uri
    remove_db c target = do
      u ← lift (Url.parse target)
      index ←
          with_context (wrap "uri %q does not contain a database index: %w" (target ∷ []))
            (lift (atoi (trim_prefix u.path (b'/' ∷ []))))
      elim (is_zero index) [
        | true ↦ pure tt
        | false ↦ do dial (admin_uri env c); defer close (ignore_nil (release index))
      ]
