-- ===== src/ApiServer/System.antt =====
-- What the server reaches: the services that the components take as parameters, the temporary files of
-- a request, and requests and responses.
use dbctl.Base.{ℕ, Option, List, Text, Error, Result, Exec}
use dbctl.Base.Dict.{Dict}
use dbctl.Container.{Env}
use dbctl.Container.Docker.{Engine}
use dbctl.Database.{Instance}
use dbctl.Files.{Files}
use dbctl.Mongo.Client.{Client}
use dbctl.Postgres.Sql.{Sql}
use dbctl.Redis.Server.{Server}

-- A part of an uploaded form: its file name, and the number by which its content is opened.
pub record FileHeader : Type 0 where
  pub filename : Text
  pub content : ℕ

-- An HTTP request. Without a multipart form `multipart` is `none`.
pub record Request : Type 0 where
  pub method : Text
  pub form_value : Text → Text
  pub multipart : Option (Text → List FileHeader)
  pub body : Text

-- What a response holds beside its status.
pub data Body : Type 0 where
  failure : Error → Body
  created : Text → Body
  empty : Body

pub record Response : Type 0 where
  pub status : ℕ
  pub body : Body

-- The body that a client sends to remove a database; its field `Type` is `db_type` here.
pub record RemoveDbRequest : Type 0 where
  pub db_type : Text
  pub uri : Text

-- `copy` stands for `io.Copy` into the file that `create` made.
pub record System (W : Type 0) : Type 0 where
  pub engine : Engine W
  pub redis : Server W
  pub sql : Sql W
  pub mongo : Client W
  pub files : Files W
  pub env : Env
  pub sha256 : Text → Text
  pub rel : Text → Text → Result Text
  pub unix_nano : Exec W ℕ
  pub mkdir_temp : Text → Exec W Text
  pub remove_all : Text → Exec W Unit
  pub mkdir_all : Text → Exec W Unit
  pub open_part : ℕ → Exec W Unit
  pub close_part : ℕ → Exec W Unit
  pub create_file : Text → Exec W ℕ
  pub copy : ℕ → ℕ → Exec W Unit
  pub close_file : ℕ → Exec W Unit
  pub decode_remove : Text → Result RemoveDbRequest
  pub decode_instances : Text → Result (Dict Instance)
