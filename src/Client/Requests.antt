-- ===== src/Client/Requests.antt =====
-- client.go: the requests that create and remove a database, and what their responses mean.
use dbctl.Base.{
  Bool, true, false, List, [], ◌∷◌, ◌++◌, map, if◌then◌else◌, ltb, Text, codes, is_empty, Error,
  errorf, wrap, Result, ok, err, Exec, pure, lift, ◌>>=◌, ◌>>◌, defer, with_context,
}
use dbctl.Base.Decimal.{format_uint}
use dbctl.Net.Url
use dbctl.Client.Http.{
  Host, HttpResponse, Part, file_part, field_part, form, json, CreateDbRequest, RemoveDbRequest,
}
use dbctl.Client.Files.{UploadFile, get_files_list}

-- `strconv.FormatBool`
abbrev pub format_bool : Bool → Text
format_bool true = codes "true"
format_bool false = codes "false"

-- The name that a file is sent under; `filepath.ToSlash` changes nothing where the separator is `/`.
unfoldable pub upload_name : Text → Text
unfolding Url.escape
upload_name rel = Url.escape Url.encode_segment rel

-- The map `kv`
abbrev pub fields : CreateDbRequest → List (Text × Text)
fields r =
    (codes "type", r.db_type)
    ∷ (codes "instance_port", format_uint r.instance_port)
    ∷ (codes "instance_user", r.instance_user)
    ∷ (codes "instance_pass", r.instance_pass)
    ∷ (codes "instance_name", r.instance_name)
    ∷ (codes "with_default_migrations", format_bool r.with_default_migrations)
    ∷ []

module _ {W : Type 0} (host : Host W) where
  open host use {open_file, read_all, close_file, range, check_url, send, encode_remove}

  -- The part for a file; writing into a buffer does not fail.
  unfoldable pub add_file_to_writer : Text → UploadFile → Exec W Part
  unfolding upload_name
  add_file_to_writer field_name file = do
    f ← open_file file.path
    content ←
        defer (close_file f)
          (with_context (wrap "read file (%s) failed: %w" (file.path ∷ [])) (read_all f))
    pure (file_part field_name (upload_name file.rel) content)

  unfoldable pub add_files : Text → List UploadFile → Exec W (List Part)
  unfolding add_file_to_writer
  add_files field_name [] = pure []
  add_files field_name (file ∷ files) = do
    part ← add_file_to_writer field_name file
    parts ← add_files field_name files
    pure (part ∷ parts)

  abbrev no_message : HttpResponse → Error
  no_message r = errorf "dbctl server returned %s" (r.status ∷ [])

  abbrev message_of : HttpResponse → Result Text → Error
  message_of r (ok message) = if is_empty message then no_message r else errorf "%s" (message ∷ [])
  message_of r (err e) = no_message r

  unfoldable pub check_for_error : HttpResponse → Result (Unit {0})
  check_for_error r =
      if ltb r.status_code 400 then ok tt else err (message_of r (host.decode_error r.body))

  -- The form: the migrations, the fixtures, and the fields in the order of the map.
  unfoldable pub create_form : CreateDbRequest → Exec W (List Part)
  unfolding get_files_list add_files
  create_form r = do
    migration_files ←
        with_context (wrap "read migrations failed: %w" [])
          (get_files_list host r.migrations r.migrations_regex)
    fixture_files ←
        with_context (wrap "read fixtures failed: %w" []) (get_files_list host r.fixtures [])
    migrations ← add_files (codes "migrations") migration_files
    fixtures ← add_files (codes "fixtures") fixture_files
    pure (migrations ++ (fixtures ++ map (λ p. field_part p.0 p.1) (range (fields r))))

  -- `httpDoCreateDBRequest`, with the URI of the response
  unfoldable pub http_do_create_db_request : CreateDbRequest → Text → Exec W Text
  unfolding create_form check_for_error
  http_do_create_db_request r base_url = do
    parts ← create_form r
    lift (check_url (base_url ++ codes "/create"))
    res ←
        send (record {
          method = codes "POST";
          url = base_url ++ codes "/create";
          payload = form parts;
        })
    lift (check_for_error res)
    lift (host.decode_created res.body)

  unfoldable pub http_do_remove_db_request : RemoveDbRequest → Text → Exec W Unit
  unfolding check_for_error
  http_do_remove_db_request r base_url = do
    content ← lift (encode_remove r)
    lift (check_url (base_url ++ codes "/remove"))
    res ← send (record {
      method = codes "DELETE";
      url = base_url ++ codes "/remove";
      payload = json content;
    })
    lift (check_for_error res)
