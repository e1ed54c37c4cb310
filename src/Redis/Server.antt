-- ===== src/Redis/Server.antt =====
-- The Redis server behind a connection, as a parameter, and what the program relies on of it.
use dbctl.Base.{
  ℕ, ◌<◌, ◌≡◌, Bool, not, ◌&&◌, ◌||◌, List, Text, Exec, ok, if◌then◌else◌, text_eq, ◌==◌,
}
use dbctl.Base.Decimal.{ℤ, pos}

-- The commands that the program sends. The connection in use is part of the world.
pub record Server (W : Type 0) : Type 0 where
  pub dial : Text → Exec W Unit
  pub close : Exec W Unit
  pub config_get : Text → Exec W (List Text)
  pub setnx : Text → Text → Exec W ℕ
  pub select : ℤ → Exec W Unit
  pub flushdb : Exec W Unit
  pub del : Text → Exec W Unit
  pub eval : Text → Exec W Unit
  pub command : Text → List Text → Exec W Unit
  pub acl : List Text → Exec W Unit

-- Documented behaviour of a server that answers, with the given number of databases. `selected` is
-- the database that the connection is on, and `has` tells whether a database holds a key. `SETNX`
-- sets a key that is not there and replies 1, or replies 0; `SELECT` takes an index below the number
-- of databases; `FLUSHDB` empties the selected database, and `DEL` takes a key out of it.
pub record IsUp {W : Type 0} (r : Server W) (databases : ℕ) : Type 0 where
  pub selected : W → ℕ
  pub has : W → ℕ → Text → Bool
  pub setnx_reply :
      (k v : Text) (w : W) → (r.setnx k v w).0 ≡ ok (if has w (selected w) k then 0 else 1)
  pub setnx_selected : (k v : Text) (w : W) → selected (r.setnx k v w).1 ≡ selected w
  pub setnx_has :
      (k v : Text) (w : W) (i : ℕ) (j : Text)
      → has (r.setnx k v w).1 i j ≡ ((i == selected w && text_eq j k) || has w i j)
  pub select_reply : (n : ℕ) (w : W) → n < databases → (r.select (pos n) w).0 ≡ ok tt
  pub select_selected : (n : ℕ) (w : W) → n < databases → selected (r.select (pos n) w).1 ≡ n
  pub select_has :
      (n : ℕ) (w : W) (i : ℕ) (j : Text)
      → n < databases
      → has (r.select (pos n) w).1 i j ≡ has w i j
  pub flushdb_reply : (w : W) → (r.flushdb w).0 ≡ ok tt
  pub flushdb_selected : (w : W) → selected (r.flushdb w).1 ≡ selected w
  pub flushdb_has :
      (w : W) (i : ℕ) (j : Text) → has (r.flushdb w).1 i j ≡ (not (i == selected w) && has w i j)
  pub del_reply : (k : Text) (w : W) → (r.del k w).0 ≡ ok tt
  pub del_selected : (k : Text) (w : W) → selected (r.del k w).1 ≡ selected w
  pub del_has :
      (k : Text) (w : W) (i : ℕ) (j : Text)
      → has (r.del k w).1 i j ≡ (not (i == selected w && text_eq j k) && has w i j)
  pub config_selected : (k : Text) (w : W) → selected (r.config_get k w).1 ≡ selected w
  pub config_has : (k : Text) (w : W) (i : ℕ) (j : Text) → has (r.config_get k w).1 i j ≡ has w i j
