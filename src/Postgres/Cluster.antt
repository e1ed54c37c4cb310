-- ===== src/Postgres/Cluster.antt =====
-- The databases of a PostgreSQL server, as far as pg.go makes, copies and drops them.
pub mod Statement
pub mod Names
pub mod Template
pub mod Request
pub mod Made
pub mod Removal
pub mod Lifecycle
use dbctl.Base.{
  Result, [], ◌&&◌, ℕ, ◌≡◌, Bool, true, false, Option, none, some, List, if◌then◌else◌, Text, codes,
  text_eq, text_eq_refl, text_eq_iff, refl, arith, contains, Error, wraps, database_not_exists, err,
  ok, Exec,
}
use dbctl.Net.Url
use dbctl.Net.Url.{Url}
use dbctl.Files.{Files}
use dbctl.Postgres.Sql.{Sql}
use dbctl.Postgres.Sql.Quote.{stored}
use dbctl.Postgres.Create.{error_text, terminate_statement}
use dbctl.Postgres.Cluster.Statement.{create, copy, remove, read_statement}

-- A database: the address of its server, and its name.
abbrev pub Place : Type 0
Place = Text × Text

-- Names are the same for a server that stores them as the same.
unfoldable pub is_place : Place → Place → Bool
unfolding stored
is_place p q = text_eq p.0 q.0 && text_eq (stored p.1) (stored q.1)

abbrev pub host_in : Result Url → Text
host_in (ok u) = u.host
host_in (err e) = []

-- The address in a URI, with its port.
unfoldable pub server_of : Text → Text
unfolding Url.parse
server_of target = host_in (Url.parse target)

abbrev pub is_there {ℓ} : {C : Type ℓ} → Option C → Bool
is_there none = false
is_there (some c) = true

-- Documented behaviour of the servers towards databases, while this program is the only one that makes or
-- drops them: what they hold, where a connection leads, and what a statement that succeeds or fails does on
-- the server that it is sent to. Inside a transaction block, and in a text of several statements, the server
-- refuses to make or drop a database.
pub record Cluster {W : Type 0} (sql : Sql W) (C : Type 0) : Type 0 where
  pub find : W → Place → Option C
  pub host : ℕ → Text
  pub opened :
      (target : Text) (w : W) (conn : ℕ)
      → (sql.open_db target w).0 ≡ ok conn
      → host conn ≡ server_of target
  pub open_keeps : (target : Text) (w : W) (d : Place) → find (sql.open_db target w).1 d ≡ find w d
  pub ping_keeps : (conn : ℕ) (w : W) (d : Place) → find (sql.ping conn w).1 d ≡ find w d
  pub close_keeps : (conn : ℕ) (w : W) (d : Place) → find (sql.close conn w).1 d ≡ find w d
  pub begin_keeps : (conn : ℕ) (w : W) (d : Place) → find (sql.begin_tx conn w).1 d ≡ find w d
  pub tx_exec_names :
      (tx : ℕ) (stmt : Text) (w : W) (d : Place)
      → is_there (find (sql.tx_exec tx stmt w).1 d) ≡ is_there (find w d)
  pub rollback_keeps : (tx : ℕ) (w : W) (d : Place) → find (sql.rollback tx w).1 d ≡ find w d
  pub commit_names :
      (tx : ℕ) (w : W) (d : Place) → is_there (find (sql.commit tx w).1 d) ≡ is_there (find w d)
  -- A statement that fails changes no database.
  pub failed_keeps :
      (conn : ℕ) (stmt : Text) (args : List Text) (w : W) (e : Error) (d : Place)
      → (sql.exec conn stmt args w).0 ≡ err e
      → find (sql.exec conn stmt args w).1 d ≡ find w d
  pub terminate_keeps :
      (conn : ℕ) (args : List Text) (w : W) (d : Place)
      → find (sql.exec conn terminate_statement args w).1 d ≡ find w d
  pub created :
      (conn : ℕ) (stmt : Text) (args : List Text) (w : W) (name : Text) (d : Place)
      → read_statement stmt ≡ some (create name)
      → (sql.exec conn stmt args w).0 ≡ ok tt
      → is_there (find (sql.exec conn stmt args w).1 d)
        ≡ (if is_place d (host conn, name) then true else is_there (find w d))
  -- A copy needs its template, and is told apart from it from then on.
  pub copied :
      (conn : ℕ) (stmt : Text) (args : List Text) (w : W) (name template : Text)
      → read_statement stmt ≡ some (copy name template)
      → (sql.exec conn stmt args w).0 ≡ ok tt
      → (c : C) × ((find w (host conn, template) ≡ some c)
          × ((d : Place)
              → find (sql.exec conn stmt args w).1 d
                ≡ (if is_place d (host conn, name) then some c else find w d)))
  -- The text of a failure does not say of a template that it is missing when it is there, and the
  -- driver's errors are not the program's own.
  pub copy_refused :
      (conn : ℕ) (stmt : Text) (args : List Text) (w : W) (name template : Text) (e : Error)
      → read_statement stmt ≡ some (copy name template)
      → (sql.exec conn stmt args w).0 ≡ err e
      → is_there (find w (host conn, template)) ≡ true
      → (contains (error_text e) (codes "does not exist") ≡ false)
        × (wraps database_not_exists e ≡ false)
  pub dropped :
      (conn : ℕ) (stmt : Text) (args : List Text) (w : W) (name : Text) (d : Place)
      → read_statement stmt ≡ some (remove name)
      → (sql.exec conn stmt args w).0 ≡ ok tt
      → find (sql.exec conn stmt args w).1 d
        ≡ (if is_place d (host conn, name) then none else find w d)

pub is_place_refl : (p : Place) → is_place p p ≡ true
unfolding is_place
is_place_refl p = rw (text_eq_refl p.0, text_eq_refl (stored p.1)) refl

both_apart :
    (a b c d e f : Text)
    → (text_eq a c && text_eq b d) ≡ true
    → (text_eq a e && text_eq b f) ≡ false
    → (text_eq e c && text_eq f d) ≡ false
both_apart a b c d e f same other = ground (
  arith,
  text_eq_iff a c,
  text_eq_iff b d,
  text_eq_iff a e,
  text_eq_iff b f,
  text_eq_iff e c,
  text_eq_iff f d,
)

-- A place that is one of two places and not the other tells them apart.
pub is_place_apart :
    (p q r : Place) → is_place p r ≡ true → is_place p q ≡ false → is_place q r ≡ false
unfolding is_place
is_place_apart p q r same other =
    both_apart p.0 (stored p.1) r.0 (stored r.1) q.0 (stored q.1) same other

-- Reading files leaves the server alone.
pub record IsApart {W C : Type 0} (files : Files W) (find : W → Place → Option C) : Type 0 where
  pub read_keeps : (path : Text) (w : W) (d : Place) → find (files.read_file path w).1 d ≡ find w d
  pub abs_keeps : (path : Text) (w : W) (d : Place) → find (files.abs path w).1 d ≡ find w d
  pub walk_keeps : (path : Text) (w : W) (d : Place) → find (files.walk path w).1 d ≡ find w d
  pub is_dir_keeps : (path : Text) (w : W) (d : Place) → find (files.is_dir path w).1 d ≡ find w d
  pub is_missing_keeps :
      (path : Text) (w : W) (d : Place) → find (files.is_missing path w).1 d ≡ find w d
