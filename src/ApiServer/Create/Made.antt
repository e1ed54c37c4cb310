-- ===== src/ApiServer/Create/Made.antt =====
-- server.go: the database that a response of the handler names.
use dbctl.Base.{Text}
use dbctl.Base.Frame.{Stays}
use dbctl.Postgres
use dbctl.Postgres.Create as PostgresCreate
use dbctl.Postgres.Cluster.{Cluster, IsApart}
use dbctl.ApiServer.System.{System, Request}
use dbctl.ApiServer.Create.{CreateDbRequest, Server}

module _ {W C : Type 0} (sys : System W) (cl : Cluster sys.sql C)
    (apart : IsApart sys.files cl.find) (cleans : (dir : Text) → Stays cl.find (sys.remove_all dir))
    (s : Server) (r : Request) where
  pg_request : CreateDbRequest → PostgresCreate.CreateDbRequest
  pg_request req = record {
    migrations = req.migrations;
    fixtures = req.fixtures;
    with_default_migrations = req.with_default_migrations;
  }
