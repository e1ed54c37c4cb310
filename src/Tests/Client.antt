-- ===== src/Tests/Client.antt =====
-- A host for the Go client: two files, and a server that creates one database.
use dbctl.Base.{
  ◌≡◌, refl, ap, true, false, List, [], ◌∷◌, if◌then◌else◌, Text, codes, text_discrete, text_eq,
  has_prefix, arith, Error, errorf, external, ok, err, Exec, pure, Elem, map, none, inl, inr,
}
use dbctl.Container.{Env}
use dbctl.Files.{Files, base}
use dbctl.ApiServer.System.{Request}
use dbctl.ApiServer.Create.{read_form}
use dbctl.Files.Paths.{join_parts, dot_dot}
use dbctl.ApiServer.Upload.{upload_path}
use dbctl.Client.Http.{Host, Part, field_part, file_part, CreateDbRequest}
use dbctl.Client.Files.{UploadFile, get_files_list}
use dbctl.Client.Requests.{upload_name, fields, create_form}
use dbctl.Client.Upload.{upload_path-upload_name}
use dbctl.Client.Form.{IsReceived, read_form-create_form}

abbrev two_files : Files Unit
two_files = record {
  is_dir = λ path. pure true;
  is_missing = λ path. pure false;
  abs = λ path. pure path;
  walk = λ root. pure (
      record { path = codes "b.sql"; name = codes "b.sql"; is_dir = false }
      ∷ record { path = codes "a.sql"; name = codes "a.sql"; is_dir = false }
      ∷ []);
  read_file = λ path. pure [];
}

abbrev no_env : Env
no_env name = []

abbrev host : Host Unit
host = record {
  env = no_env;
  files = two_files;
  stat = λ path. pure tt;
  compile = λ pattern. ok (λ s. true);
  rel = λ root path. ok path;
  open_file = λ path. pure 3;
  read_all = λ f. pure (codes "SELECT 1");
  close_file = λ f. pure tt;
  range = λ l. l;
  check_url = λ url. ok tt;
  send = λ request.
      pure (record { status_code = 200; status = codes "200 OK"; body = codes "redis://db" });
  encode_remove = λ r. ok r.uri;
  decode_created = λ body. ok body;
  decode_error = λ body. err (external (codes "no message"));
}

upload_path-upload_name_example :
    upload_path (base (upload_name (join_parts (codes "v1" ∷ codes "a b.sql" ∷ [])))) ≡ (
      if has_prefix (join_parts (codes "v1" ∷ codes "a b.sql" ∷ [])) dot_dot
      then err (
          errorf "file name %q is outside the upload directory"
            (base (upload_name (join_parts (codes "v1" ∷ codes "a b.sql" ∷ []))) ∷ []))
      else ok (join_parts (codes "v1" ∷ codes "a b.sql" ∷ [])))
unfolding text_discrete join_parts
upload_path-upload_name_example =
    upload_path-upload_name (codes "v1" ∷ codes "a b.sql" ∷ []) (λ e. cc) refl refl

abbrev request : CreateDbRequest
request = record {
  db_type = codes "postgres";
  migrations = [];
  migrations_regex = [];
  fixtures = [];
  with_default_migrations = true;
  instance_port = 15432;
  instance_user = codes "dbctl";
  instance_pass = [];
  instance_name = [];
}

abbrev value_in : Text → List (Text × Text) → Text
value_in name [] = []
value_in name (p ∷ l) = if text_eq name p.0 then p.1 else value_in name l

abbrev received : Request
received = record {
  method = codes "POST";
  form_value = λ name. value_in name (fields request);
  multipart = none;
  body = [];
}

abbrev parts : List Part
parts = map (λ p. field_part p.0 p.1) (fields request)

abbrev to_parts : List (Text × Text) → List Part
to_parts l = map (λ p. field_part p.0 p.1) l

abbrev name_of : Part → Text
name_of (file_part field_name filename content) = field_name
name_of (field_part name value) = name

value_in-Elem :
    (name value : Text) (l : List (Text × Text))
    → Elem (field_part name value) (to_parts l)
    → ((other : Text) → Elem (field_part name other) (to_parts l) → other ≡ value)
    → value_in name l ≡ value
value_in-Elem name value [] m one = absurd m
value_in-Elem name value (p ∷ l) m one = elim (text_discrete name p.0) [
  | yes e ↦ ground (arith, e, one p.1 (inl (ap (λ n. field_part n p.1) e)))
  | no n ↦ elim m [
    | inl e ↦ absurd (n (ap name_of e))
    | inr m ↦ ground (arith, n, value_in-Elem name value l m (λ other k. one other (inr k)))
  ]
]

received-IsReceived : IsReceived parts received
received-IsReceived = record {
  values = λ name value m one. value_in-Elem name value (fields request) m one;
}

read_form-create_form_example :
    read_form received
    ≡ ok (record {
      db_type = codes "postgres";
      migrations = [];
      fixtures = [];
      with_default_migrations = true;
      instance_port = 15432;
      instance_user = codes "dbctl";
      instance_pass = [];
      instance_name = [];
    })
unfolding create_form get_files_list
read_form-create_form_example =
    read_form-create_form host (λ l p. (λ m. m, λ m. m)) request tt parts received refl
      received-IsReceived (omega arith)

abbrev bad_env : Env
bad_env name = codes "port"

abbrev sorted : List UploadFile
sorted =
    record { rel = codes "a.sql"; path = codes "a.sql" }
    ∷ record { rel = codes "b.sql"; path = codes "b.sql" }
    ∷ []

abbrev ignore : Error → Exec Unit Unit
ignore e = pure tt
