-- ===== src/ApiServer/Remove.antt =====
-- server.go: the handler that removes a database.
pub mod Laws
pub mod Gone
use dbctl.Base.{
  not, [], ◌∷◌, if◌then◌else◌, codes, text_eq, is_empty, errorf, Result, ok, err, Exec, pure, lift,
  ◌>>=◌, then_result,
}
use dbctl.Database.{type_postgres, type_redis, type_mongodb}
use dbctl.Postgres
use dbctl.Postgres.Create as PostgresCreate
use dbctl.Redis
use dbctl.Redis.Index
use dbctl.Mongo
use dbctl.Mongo.Admin as MongoAdmin
use dbctl.ApiServer.System.{System, Request, Response, RemoveDbRequest, empty}
use dbctl.ApiServer.Create.{validate_type, json_error}

abbrev check : RemoveDbRequest → Result RemoveDbRequest
check req =
    if is_empty req.db_type
    then err (errorf "type is required" [])
    else if is_empty req.uri
    then err (errorf "uri is required" [])
    else then_result (validate_type req.db_type) (λ _. ok req)

abbrev respond : Result (Unit {0}) → Response
respond (ok _) = record { status = 204; body = empty }
respond (err e) = json_error 500 e

module _ {W : Type 0} (sys : System W) where
  open sys use {engine, redis, sql, mongo, files, env, decode_remove}

  unfoldable pub remove_postgres_db : RemoveDbRequest → Exec W Unit
  unfolding Postgres.new Postgres.with_uri PostgresCreate.remove_db
  remove_postgres_db r = do
    c ← lift (Postgres.new (Postgres.with_uri r.uri ∷ []))
    PostgresCreate.remove_db sql env c r.uri

  unfoldable pub remove_redis_db : RemoveDbRequest → Exec W Unit
  unfolding Redis.new Redis.with_uri Index.remove_db
  remove_redis_db r = do
    c ← lift (Redis.new (Redis.with_uri r.uri ∷ []))
    Index.remove_db redis env c r.uri

  unfoldable pub remove_mongo_db : RemoveDbRequest → Exec W Unit
  unfolding Mongo.new Mongo.with_uri MongoAdmin.remove_db
  remove_mongo_db r = do
    c ← lift (Mongo.new (Mongo.with_uri r.uri ∷ []))
    MongoAdmin.remove_db mongo engine files env c r.uri

  unfoldable pub remove_of_type : RemoveDbRequest → Exec W Unit
  unfolding remove_postgres_db remove_redis_db remove_mongo_db
  remove_of_type r =
      if text_eq r.db_type type_postgres
      then remove_postgres_db r
      else if text_eq r.db_type type_redis
      then remove_redis_db r
      else if text_eq r.db_type type_mongodb
      then remove_mongo_db r
      else pure tt

  unfoldable pub remove_db : Request → W → Response × W
  unfolding validate_type remove_of_type
  remove_db r w =
      if not (text_eq r.method (codes "DELETE"))
      then (json_error 405 (errorf "method not allowed" []), w)
      else elim (then_result (decode_remove r.body) check) [
        | err e ↦ (json_error 400 e, w)
        | ok req ↦ (respond (remove_of_type req w).0, (remove_of_type req w).1)
      ]
