-- ===== src/Cmd/Stop.antt =====
-- cmd/stop.go
pub mod Laws
pub mod Run
use dbctl.Base.{
  ℕ, ◌+◌, ◌≡◌, Bool, true, false, not, ◌&&◌, List, [], ◌∷◌, if◌then◌else◌, map, ltb, ◌==◌, Text,
  codes, text_eq, Error, errorf, wrap, Result, ok, err, Exec, pure, raise, lift, ◌>>=◌, ◌>>◌,
  for_each,
}
use dbctl.Utils.{one_of, contain}
use dbctl.Container.{Container, list, terminate_by_id, label_custom}
use dbctl.Container.Docker.{Engine}
use dbctl.Database.{Info, instances_of, type_postgres, type_redis, type_mongodb}

unfoldable pub its_db_type : Text → Bool
unfolding one_of
its_db_type a = one_of a (
    codes "pg" ∷ codes "postgres" ∷ codes "rs" ∷ codes "redis" ∷ codes "mongodb" ∷ codes "mdb" ∷ [])

module _ {W : Type 0} (engine : Engine W) where
  unfoldable pub remove_by_info : List Info → Exec W Unit
  unfolding for_each
  remove_by_info dbs = for_each dbs (λ i. terminate_by_id engine i.id)

  -- The loop of `removeByLabel`, and that over all containers: it counts what it has removed.
  unfoldable pub remove_counted : ℕ → List Container → Exec W ℕ
  remove_counted effected [] = pure effected
  remove_counted effected (i ∷ items) = do
    terminate_by_id engine i.id
    remove_counted (effected + 1) items

  unfoldable pub remove_by_label : Text → Exec W ℕ
  unfolding remove_counted
  remove_by_label label = do
    items ← list engine ((label_custom, label) ∷ [])
    remove_counted 0 items

  -- One of the three blocks that stop the instances of a type.
  unfoldable pub stop_type : Text → Text → Exec W Unit
  unfolding remove_by_info instances_of
  stop_type db_type label = do items ← instances_of engine db_type label; remove_by_info items

  abbrev when : Bool → Exec W Unit → Exec W Unit
  when true m = m
  when false m = pure tt

  unfoldable pub stop_all : Exec W Unit
  unfolding for_each
  stop_all = do containers ← list engine []; for_each containers (λ c. terminate_by_id engine c.id)

  -- By label, or if that stops nothing, by id.
  unfoldable pub stop_named : Text → Exec W Unit
  unfolding remove_by_label stop_all
  stop_named arg = if text_eq arg (codes "all") then stop_all else do
    effected ← remove_by_label arg
    if ltb 0 effected then pure tt else terminate_by_id engine arg

  unfoldable pub stop_single : List Text → Exec W Unit
  unfolding stop_named its_db_type
  stop_single (arg ∷ []) = when (not (its_db_type arg)) (stop_named arg)
  stop_single args = pure tt

  -- `label` is what the flag of that name reads as.
  unfoldable pub run_stop : Result Text → List Text → Exec W Unit
  unfolding stop_type stop_single contain
  run_stop label [] =
      raise (errorf "invalid args, can be postgres(pg) and/or redis(rs) or instance id" [])
  run_stop (err e) (a ∷ args) = raise (wrap "invalid label args, %w" [] e)
  run_stop (ok label) (a ∷ args) = do
    when (contain (a ∷ args) (codes "pg") (codes "postgres")) (stop_type type_postgres label)
    when (contain (a ∷ args) (codes "rs") (codes "redis")) (stop_type type_redis label)
    when (contain (a ∷ args) (codes "mdb") (codes "mongodb")) (stop_type type_mongodb label)
    stop_single (a ∷ args)
