-- ===== src/Client/Http.antt =====
-- What the Go client reaches: files, regular expressions, JSON and HTTP, as parameters.
use dbctl.Base.{ℕ, Bool, List, Text, Result, Exec}
use dbctl.Container.{Env}
use dbctl.Files.{Files}

-- `CreateDBRequest`; its field `Type` is `db_type` here.
pub record CreateDbRequest : Type 0 where
  pub db_type : Text
  pub migrations : Text
  pub migrations_regex : Text
  pub fixtures : Text
  pub with_default_migrations : Bool
  pub instance_port : ℕ
  pub instance_user : Text
  pub instance_pass : Text
  pub instance_name : Text

-- `RemoveDBRequest`
pub record RemoveDbRequest : Type 0 where
  pub db_type : Text
  pub uri : Text

-- A part of a form: a file with its field, its name and its content, or a field with its value.
pub data Part : Type 0 where
  file_part : Text → Text → Text → Part
  field_part : Text → Text → Part

-- What a request carries: the parts of a form, or a text.
pub data Payload : Type 0 where
  form : List Part → Payload
  json : Text → Payload

pub record HttpRequest : Type 0 where
  pub method : Text
  pub url : Text
  pub payload : Payload

pub record HttpResponse : Type 0 where
  pub status_code : ℕ
  pub status : Text
  pub body : Text

-- `stat` is `os.Stat`, `compile` is `regexp.Compile` with `MatchString`, `rel` is `filepath.Rel`,
-- `check_url` is what `http.NewRequest` refuses, `send` is `http.DefaultClient.Do` with the body of the
-- response read, and `range` is the order in which a `for` over a map visits it.
pub record Host (W : Type 0) : Type 0 where
  pub env : Env
  pub files : Files W
  pub stat : Text → Exec W Unit
  pub compile : Text → Result (Text → Bool)
  pub rel : Text → Text → Result Text
  pub open_file : Text → Exec W ℕ
  pub read_all : ℕ → Exec W Text
  pub close_file : ℕ → Exec W Unit
  pub range : List (Text × Text) → List (Text × Text)
  pub check_url : Text → Result (Unit {0})
  pub send : HttpRequest → Exec W HttpResponse
  pub encode_remove : RemoveDbRequest → Result Text
  pub decode_created : Text → Result Text
  pub decode_error : Text → Result Text
