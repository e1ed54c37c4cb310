-- ===== src/Mongo/Script.antt =====
-- mongodb.go: connecting, and applying migration and fixture scripts.
use dbctl.Base.{
  ℕ, ◌||◌, List, [], ◌∷◌, if◌then◌else◌, Text, codes, text_eq, is_empty, contains, to_lower,
  trim_suffix, Error, errorf, wrap, ok, err, Exec, pure, raise, lift, ◌>>=◌, ◌>>◌, try, defer,
  with_context, for_each,
}
use dbctl.Container.{Container, Env, list, run_exec, label_type}
use dbctl.Container.Docker.{Engine}
use dbctl.Database.{type_mongodb}
use dbctl.Files.{Files, ext, base}
use dbctl.Mongo.{Config, uri, get_files, default_user, default_pass}
use dbctl.Mongo.Client.{Client}

module _ {W : Type 0} (client : Client W) (env : Env) where
  -- `connect`: a client whose ping fails is disconnected.
  unfoldable pub connect : Config → Exec W ℕ
  unfolding uri
  connect c = do
    n ← client.connect (uri env c)
    pinged ← try (client.ping n)
    elim pinged [ ok _ ↦ pure n | err e ↦ try (client.disconnect n) >> raise e ]

module _ {W : Type 0} (client : Client W) (engine : Engine W) (files : Files W) where
  -- The command that runs a script in the shell of the container.
  abbrev pub shell_command : Text → Text → List Text
  shell_command db_name content =
      codes "mongosh"
      ∷ codes "--username"
      ∷ default_user
      ∷ codes "--password"
      ∷ default_pass
      ∷ codes "--authenticationDatabase"
      ∷ codes "admin"
      ∷ db_name
      ∷ codes "--eval"
      ∷ content
      ∷ []

  abbrev no_container : Error → Error
  no_container e = wrap "failed to find MongoDB container: %w" [] e

  abbrev first_container : List Container → Exec W Container
  first_container [] = raise (errorf "failed to find MongoDB container: %w" [])
  first_container (c ∷ cs) = pure c

  unfoldable pub check_output : Text → Exec W Unit
  unfolding contains to_lower
  check_output output =
      if contains (to_lower output) (codes "error")
        || contains (to_lower output) (codes "exception")
      then raise (errorf "script execution error: %s" (output ∷ []))
      else pure tt

  unfoldable pub run_js : Text → Text → Exec W Unit
  unfolding list run_exec check_output
  run_js db_name content = do
    containers ← with_context no_container (list engine ((label_type, type_mongodb) ∷ []))
    c ← first_container containers
    output ←
        with_context (wrap "failed to execute script: %w" [])
          (run_exec engine c.id (shell_command db_name content))
    check_output output

  unfoldable pub insert_documents : ℕ → Text → Text → List Text → Exec W Unit
  insert_documents n db_name coll [] = pure tt
  insert_documents n db_name coll (d ∷ docs) =
      with_context (wrap "failed to insert documents: %w" [])
        (client.insert_many n db_name coll (d ∷ docs))

  unfoldable pub import_json : ℕ → Text → Text → Text → Exec W Unit
  unfolding base trim_suffix insert_documents
  import_json n db_name path content = do
    docs ←
        with_context (wrap "failed to parse JSON file: %w" []) (lift (client.decode_json content))
    insert_documents n db_name (trim_suffix (base path) (to_lower (ext path))) docs

  unfoldable pub apply_js_script : ℕ → Text → Text → Exec W Unit
  unfolding ext to_lower run_js import_json
  apply_js_script n db_name path = do
    content ← with_context (wrap "failed to read script file: %w" []) (files.read_file path)
    if text_eq (to_lower (ext path)) (codes ".js")
        then run_js db_name content
        else (if text_eq (to_lower (ext path)) (codes ".json")
            then import_json n db_name path content
            else raise (errorf "unsupported script file type: %s" (to_lower (ext path) ∷ [])))

  -- A loop over scripts; the word is `migration` or `fixture`.
  unfoldable pub apply_scripts : (Text → Error → Error) → ℕ → Text → List Text → Exec W Unit
  unfolding apply_js_script for_each
  apply_scripts context n db_name fs =
      for_each fs (λ f. with_context (context f) (apply_js_script n db_name f))

  abbrev migration_error : Text → Error → Error
  migration_error f = wrap "failed to apply migration %s: %w" (f ∷ [])

  abbrev fixture_error : Text → Error → Error
  fixture_error f = wrap "failed to apply fixture %s: %w" (f ∷ [])

  unfoldable pub apply_migrations_from_dir : ℕ → Text → Text → Exec W Unit
  unfolding get_files apply_scripts
  apply_migrations_from_dir n db_name dir = if is_empty dir then pure tt else do
    fs ← with_context (wrap "read migrations failed: %w" []) (get_files files dir)
    apply_scripts migration_error n db_name fs

  unfoldable pub apply_fixtures_from_dir : ℕ → Text → Text → Exec W Unit
  unfolding get_files apply_scripts
  apply_fixtures_from_dir n db_name dir = if is_empty dir then pure tt else do
    fs ← with_context (wrap "read fixtures failed: %w" []) (get_files files dir)
    apply_scripts fixture_error n db_name fs

  module _ (env : Env) where
    unfoldable pub run_migrations : Config → Exec W Unit
    unfolding connect apply_scripts
    run_migrations c = elim c.migrations_files [
      | [] ↦ pure tt
      | f ∷ fs ↦ do
        n ← connect client env c
        defer (client.disconnect n) (apply_scripts migration_error n c.name (f ∷ fs))
    ]

    unfoldable pub apply_fixtures : Config → Exec W Unit
    unfolding connect apply_scripts
    apply_fixtures c = elim c.fixture_files [
      | [] ↦ pure tt
      | f ∷ fs ↦ do
        n ← connect client env c
        defer (client.disconnect n) (apply_scripts fixture_error n c.name (f ∷ fs))
    ]
