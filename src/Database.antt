-- ===== src/Database.antt =====
-- internal/database/database.go: labels, and finding the running instances by them.
pub mod Host
pub mod Address
pub mod Selection
pub mod Laws
pub mod Find
pub mod FindAll
use dbctl.Base.{
  ℕ, ◌≡◌, Bool, true, false, not, ◌||◌, ◌==◌, Option, none, some, List, [], ◌∷◌, ◌++◌, map,
  if◌then◌else◌, length, Text, codes, text_eq, is_empty, Error, errorf, wrap, sentinel, no_instance,
  ambiguous_instance, wraps, Result, ok, err, Exec, pure, raise, lift, ◌>>=◌, ◌>>◌, try,
}
use dbctl.Base.Decimal.{format_uint, parse_uint}
use dbctl.Base.Dict
use dbctl.Base.Dict.{Dict}
use dbctl.Container.{
  Container, list, label_type, label_custom, label_port, label_user, label_pass, label_name,
}
use dbctl.Container.Docker.{Engine}

pub data Status : Type 0 where
  running stoped : Status

abbrev pub type_postgres : Text
type_postgres = codes "postgres"

abbrev pub type_redis : Text
type_redis = codes "redis"

abbrev pub type_mongodb : Text
type_mongodb = codes "mongodb"

unfoldable pub instance_labels : Text → Text → Dict Text
unfolding Dict.insert
instance_labels db_type label =
    let labels : Dict Text = (label_type, db_type) ∷ [] in
    if is_empty label then labels else Dict.insert label_custom label labels

unfoldable pub connection_labels : Text → Text → Text → ℕ → Dict Text
unfolding format_uint
connection_labels user pass name port =
    (label_port, format_uint port)
    ∷ (label_user, user)
    ∷ (label_pass, pass)
    ∷ (label_name, name)
    ∷ []

-- The labels that `startUsingDocker` of each package puts on the container that it creates.
unfoldable pub start_labels : Text → Text → Text → Text → ℕ → Text → Dict Text
unfolding connection_labels Dict.insert_all Dict.insert
start_labels db_type user pass name port label =
    let labels =
      Dict.insert_all (connection_labels user pass name port) ((label_type, db_type) ∷ []) in
    if is_empty label then labels else Dict.insert label_custom label labels

-- `Instance`; its field `Type` is `db_type` here.
pub record Instance : Type 0 where
  pub id : Text
  pub db_type : Text
  pub label : Text
  pub port : ℕ
  pub user : Text
  pub pass : Text
  pub name : Text

abbrev port_error : Text → Text → Result ℕ → Result ℕ
port_error name p (ok n) = ok n
port_error name p (err e) =
    err (wrap "instance %s has an invalid port label %q: %w" (name ∷ p ∷ []) e)

-- Without a port label the field keeps its zero.
unfoldable pub port_of : Container → Result ℕ
unfolding parse_uint Dict.get
port_of c =
    let p = Dict.get label_port c.labels in
    if is_empty p then ok 0 else port_error c.name p (parse_uint 32 p)

-- The last part of `FindInstance`, for the container that it has found.
unfoldable pub instance_of : Text → Container → Result Instance
unfolding port_of
instance_of db_type c = elim (port_of c) [
  | err e ↦ err e
  | ok port ↦ ok (record {
    id = c.id;
    db_type = db_type;
    label = Dict.get label_custom c.labels;
    port = port;
    user = Dict.get label_user c.labels;
    pass = Dict.get label_pass c.labels;
    name = Dict.get label_name c.labels;
  })
]

-- `%q` of a text that can be printed.
escape_marks : Text → Text
escape_marks [] = []
escape_marks (c ∷ s) =
    let more = escape_marks s in if c == b'"' || c == 92 then 92 ∷ (c ∷ more) else c ∷ more

unfoldable pub describe : Container → Text
unfolding escape_marks
describe c =
    c.name ++ (codes " (label \"" ++ (escape_marks (Dict.get label_custom c.labels) ++ codes "\")"))

unfoldable pub choose_instance : Text → Text → List Container → Result Instance
unfolding instance_of describe
choose_instance db_type label [] =
    if is_empty label
    then err (
        wrap "%w: no %s instance, start one with 'dbctl start %s'" (db_type ∷ db_type ∷ [])
          (sentinel no_instance))
    else err (
        wrap "%w: no %s instance labelled %q, start one with 'dbctl start %s --label %s'"
          (db_type ∷ label ∷ db_type ∷ label ∷ []) (sentinel no_instance))
choose_instance db_type label (c ∷ []) = instance_of db_type c
choose_instance db_type label (c ∷ d ∷ cs) = err (
    wrap "%w: %d %s instances are running, pass --label to pick one: %s"
      (format_uint (length (c ∷ d ∷ cs)) ∷ db_type ∷ map describe (c ∷ d ∷ cs))
      (sentinel ambiguous_instance))

-- `Info`
pub record Info : Type 0 where
  pub id : Text
  pub db_type : Text
  pub status : Status

unfoldable pub to_info : Container → Info
to_info c = record { id = c.id; db_type = c.name; status = running }

module _ {W : Type 0} (engine : Engine W) where
  unfoldable pub find_instance : Text → Text → Exec W Instance
  unfolding choose_instance
  find_instance db_type label = do
    found ← list engine (instance_labels db_type label)
    lift (choose_instance db_type label found)

  -- The errors that leave a type out.
  abbrev pub is_skipped : Error → Bool
  is_skipped e = wraps no_instance e || wraps ambiguous_instance e

  unfoldable pub find_all : Text → List Text → Dict Instance → Exec W (Dict Instance)
  unfolding find_instance Dict.insert
  find_all label [] out = pure out
  find_all label (db_type ∷ types) out = do
    found ← try (find_instance db_type label)
    elim found [
      | ok i ↦ find_all label types (Dict.insert db_type i out)
      | err e ↦ elim (is_skipped e) [ true ↦ find_all label types out | false ↦ raise e ]
    ]

  unfoldable pub find_instances : Text → Exec W (Dict Instance)
  unfolding find_all
  find_instances label = find_all label (type_postgres ∷ type_redis ∷ type_mongodb ∷ []) []

  -- `Instances` of the packages pg, redis and mongodb, which differ in the type alone.
  unfoldable pub instances_of : Text → Text → Exec W (List Info)
  unfolding to_info
  instances_of db_type label = do
    l ← list engine (instance_labels db_type label)
    pure (map to_info l)
