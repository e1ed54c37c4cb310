-- ===== src/ApiServer/Create/Laws.antt =====
-- server.go: what the form and the instance say of a connection.
use dbctl.Base.{◌≡◌, some, [], ◌∷◌, Text, codes, arith, ok}
use dbctl.Database.{Instance}
use dbctl.Postgres
use dbctl.Mongo
use dbctl.ApiServer.System.{Request}
use dbctl.ApiServer.Create.{
  CreateDbRequest, read_form, postgres_config, mongo_config, fill, or_port,
}

-- The first of three texts that is given, and the first of three ports.
abbrev pub first_text : Text → Text → Text → Text
first_text [] [] c = c
first_text [] (y ∷ b) c = y ∷ b
first_text (x ∷ a) b c = x ∷ a

-- The connection of a PostgreSQL database: each detail is that of the request, else that of the
-- instance, else the default.
postgres_config-fill :
    (i : Instance) (r : CreateDbRequest)
    → postgres_config (fill (some i) r)
      ≡ ok (record Postgres.default_config {
        user = first_text r.instance_user i.user Postgres.default_user;
        pass = first_text r.instance_pass i.pass Postgres.default_pass;
        name = first_text r.instance_name i.name Postgres.default_name;
        port = or_port r.instance_port (or_port i.port Postgres.default_port);
      })
unfolding postgres_config fill Postgres.new Postgres.with_host
postgres_config-fill i r = ground arith

-- The connection of a MongoDB database: each detail is that of the request, else that of the
-- instance, else the default.
pub mongo_config-fill :
    (i : Instance) (r : CreateDbRequest)
    → mongo_config (fill (some i) r)
      ≡ ok (record Mongo.default_config {
        user = first_text r.instance_user i.user Mongo.default_user;
        pass = first_text r.instance_pass i.pass Mongo.default_pass;
        name = first_text r.instance_name i.name Mongo.default_name;
        port = or_port r.instance_port (or_port i.port Mongo.default_port);
      })
unfolding mongo_config fill Mongo.new Mongo.with_host
mongo_config-fill i r = ground arith

module _ (r : Request) where
  pub read_form-db_type :
      (x : CreateDbRequest) → read_form r ≡ ok x → x.db_type ≡ r.form_value (codes "type")
  unfolding read_form
  read_form-db_type x q = ground arith
