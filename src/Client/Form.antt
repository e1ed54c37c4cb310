-- ===== src/Client/Form.antt =====
-- client.go and server.go: what the server reads in the form that the client sends.
use dbctl.Base.{
  ℕ, ◌^◌, ◌<◌, ◌≡◌, ◌↔◌, refl, ◌∙◌, sym, ap, Bool, true, false, List, [], ◌∷◌, ◌++◌, map, Text,
  codes, text_discrete, is_empty, arith, ok, Elem, wrap, Exec, pure, ◌>>=◌, with_context, bind-ok,
  Result-cases, inl, inr,
}
use mathlib.Core.Path.{subst}
use dbctl.Base.Decimal.{format_uint, parse_uint, parse_uint-format_uint, format_uint-ne-nil}
use dbctl.ApiServer.System.{Request}
use dbctl.ApiServer.Create.{read_form, is_true}
use dbctl.Client.Http.{Host, Part, file_part, field_part, CreateDbRequest}
use dbctl.Client.Files.{UploadFile, get_files_list}
use dbctl.Client.Parts.{
  AreSent, no_field, Elem-append_right, Elem-map, to_part, Elem-of_part, distinct_names, one_value,
}
use dbctl.Client.Requests.{
  upload_name, fields, format_bool, add_file_to_writer, add_files, create_form,
}

-- What `net/http` makes of the parts of a form: a field that stands once has its value.
pub record IsReceived (parts : List Part) (r : Request) : Type 0 where
  pub values :
      (name value : Text)
      → Elem (field_part name value) parts
      → ((other : Text) → Elem (field_part name other) parts → other ≡ value)
      → r.form_value name ≡ value

names : (q : CreateDbRequest) → distinct_names (fields q) ≡ true
unfolding text_discrete
names q = refl

digits_given : (n : ℕ) → is_empty (format_uint n) ≡ false
digits_given n = ground (arith, format_uint-ne-nil n)

is_true-format_bool : (b : Bool) → is_true (format_bool b) ≡ b
unfolding is_true text_discrete
is_true-format_bool true = refl
is_true-format_bool false = refl

module _ {W : Type 0} (host : Host W) where
  add_file_to_writer_lem :
      (field_name : Text) (f : UploadFile) (w : W) (p : Part)
      → (add_file_to_writer host field_name f w).0 ≡ ok p
      → (content : Text) × (p ≡ file_part field_name (upload_name f.rel) content)
  unfolding add_file_to_writer
  add_file_to_writer_lem field_name f w p h = elim (Result-cases (host.open_file f.path w).0) [
    | inl (n, q) ↦ elim (Result-cases (host.read_all n (host.open_file f.path w).1).0) [
      | inl (content, e) ↦ (content, ground (arith, q, e, h))
      | inr (e, x) ↦ absurd (ground (arith, q, x, h))
    ]
    | inr (e, q) ↦ absurd (ground (arith, q, h))
  ]

  pub add_files-AreSent :
      (field_name : Text) (files : List UploadFile) (w : W) (parts : List Part)
      → (add_files host field_name files w).0 ≡ ok parts
      → AreSent field_name files parts
  unfolding add_files
  add_files-AreSent field_name [] w parts h =
      let e : [] ≡ parts = ground (arith, h) in subst (AreSent field_name []) e tt
  add_files-AreSent field_name (f ∷ files) w parts h =
      let (p, (made, rest)) =
        bind-ok (add_file_to_writer host field_name f)
          (λ part. add_files host field_name files >>= λ parts. pure (part ∷ parts)) w parts h in
      let v = (add_file_to_writer host field_name f w).1 in
      let (ps, (others, last)) =
        bind-ok (add_files host field_name files) (λ parts. pure (p ∷ parts)) v parts rest in
      let e : p ∷ ps ≡ parts = ground (arith, last) in
      subst (AreSent field_name (f ∷ files)) e (
        add_file_to_writer_lem field_name f w p made,
        add_files-AreSent field_name files v ps others,
      )

  -- A form is the files of the migrations, those of the fixtures, and the fields.
  abbrev pub IsForm : CreateDbRequest → List Part → Type 0
  IsForm r parts =
      (ms : List UploadFile) × (fs : List UploadFile) × (a : List Part) × (b : List Part) × (AreSent
          (codes "migrations") ms a
        × AreSent (codes "fixtures") fs b
        × (parts ≡ a ++ (b ++ map to_part (host.range (fields r)))))

  abbrev migrations : CreateDbRequest → Exec W (List UploadFile)
  migrations r =
      with_context (wrap "read migrations failed: %w" [])
        (get_files_list host r.migrations r.migrations_regex)

  abbrev fixtures : CreateDbRequest → Exec W (List UploadFile)
  fixtures r = with_context (wrap "read fixtures failed: %w" []) (get_files_list host r.fixtures [])

  abbrev after_b : CreateDbRequest → List Part → List Part → Exec W (List Part)
  after_b r a b = pure (a ++ (b ++ map to_part (host.range (fields r))))

  abbrev after_a : CreateDbRequest → List UploadFile → List Part → Exec W (List Part)
  after_a r fs a = add_files host (codes "fixtures") fs >>= after_b r a

  abbrev after_fixtures : CreateDbRequest → List UploadFile → List UploadFile → Exec W (List Part)
  after_fixtures r ms fs = add_files host (codes "migrations") ms >>= after_a r fs

  abbrev after_migrations : CreateDbRequest → List UploadFile → Exec W (List Part)
  after_migrations r ms = fixtures r >>= after_fixtures r ms

  create_form-IsForm :
      (r : CreateDbRequest) (w : W) (parts : List Part)
      → (create_form host r w).0 ≡ ok parts
      → IsForm r parts
  unfolding create_form
  create_form-IsForm r w parts h =
      let (ms, (got_ms, h1)) = bind-ok (migrations r) (after_migrations r) w parts h in
      let w1 = (migrations r w).1 in
      let (fs, (got_fs, h2)) = bind-ok (fixtures r) (after_fixtures r ms) w1 parts h1 in
      let w2 = (fixtures r w1).1 in
      let (a, (got_a, h3)) =
        bind-ok (add_files host (codes "migrations") ms) (after_a r fs) w2 parts h2 in
      let w3 = (add_files host (codes "migrations") ms w2).1 in
      let (b, (got_b, h4)) =
        bind-ok (add_files host (codes "fixtures") fs) (after_b r a) w3 parts h3 in
      (
        ms,
        fs,
        a,
        b,
        (
          add_files-AreSent (codes "migrations") ms w2 a got_a,
          add_files-AreSent (codes "fixtures") fs w3 b got_b,
          ground (arith, h4),
        ),
      )

  module _
      (ranges : (l : List (Text × Text)) (p : Text × Text) → Elem p (host.range l) ↔ Elem p l) where
    form_value_lem :
        (q : CreateDbRequest) (parts : List Part) (r : Request)
        → IsForm q parts
        → IsReceived parts r
        → (name value : Text) → Elem (name, value) (fields q)
        → r.form_value name ≡ value
    form_value_lem q parts r (ms, fs, a, b, (sent_a, sent_b, e)) got name value m =
        let into : Elem (field_part name value) parts =
          subst (Elem (field_part name value)) (sym e) (
            Elem-append_right _ a _ (
              Elem-append_right _ b _ (
                Elem-map to_part (name, value) (host.range (fields q))
                  ((ranges (fields q) (name, value)).1 m)))) in
        got.values name value into λ other k.
          let back = no_field (codes "fixtures") fs b sent_b name other _ (
            no_field (codes "migrations") ms a sent_a name other _
              (subst (Elem (field_part name other)) e k)) in
          one_value name value other (fields q) (names q) m
            ((ranges (fields q) (name, other)).0 (Elem-of_part name other _ back))

    -- The fields that the server reads in the form of a request are the fields of the request, whatever
    -- the order in which they were written; the directories come from the uploads.
    pub read_form-create_form :
        (q : CreateDbRequest) (w : W) (parts : List Part) (r : Request)
        → (create_form host q w).0 ≡ ok parts
        → IsReceived parts r
        → q.instance_port < 2 ^ 32
        → read_form r
          ≡ ok (record {
            db_type = q.db_type;
            migrations = [];
            fixtures = [];
            with_default_migrations = q.with_default_migrations;
            instance_port = q.instance_port;
            instance_user = q.instance_user;
            instance_pass = q.instance_pass;
            instance_name = q.instance_name;
          })
    unfolding read_form
    read_form-create_form q w parts r made got small =
        let value = form_value_lem q parts r (create_form-IsForm q w parts made) got in
        let db_type = value (codes "type") q.db_type (inl refl) in
        let port = value (codes "instance_port") (format_uint q.instance_port) (inr (inl refl)) in
        let user = value (codes "instance_user") q.instance_user (inr (inr (inl refl))) in
        let pass = value (codes "instance_pass") q.instance_pass (inr (inr (inr (inl refl)))) in
        let name =
          value (codes "instance_name") q.instance_name (inr (inr (inr (inr (inl refl))))) in
        let flag =
          value (codes "with_default_migrations") (format_bool q.with_default_migrations)
            (inr (inr (inr (inr (inr (inl refl)))))) in
        let given : is_empty (r.form_value (codes "instance_port")) ≡ false =
          ap is_empty port ∙ digits_given q.instance_port in
        let parsed : parse_uint 32 (r.form_value (codes "instance_port")) ≡ ok q.instance_port =
          ap (parse_uint 32) port ∙ parse_uint-format_uint 32 q.instance_port small in
        let set : is_true (r.form_value (codes "with_default_migrations"))
            ≡ q.with_default_migrations =
          ap is_true flag ∙ is_true-format_bool q.with_default_migrations in
        rw (given, parsed, set, db_type, user, pass, name) refl
