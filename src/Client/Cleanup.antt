-- ===== src/Client/Cleanup.antt =====
-- client.go: who removes what was created.
use dbctl.Base.{
  ◌<◌, ◌≡◌, List, [], ◌∷◌, ◌++◌, Text, codes, Error, wrap, ok, Exec, ◌>>=◌, try, with_context,
}
use dbctl.Client.{remove_db, report, request_of, abs_or_empty}
use dbctl.Client.Options.{Config, Setting, get_host_url}
use dbctl.Client.Http.{Host, HttpRequest, HttpResponse, Part, form}
use dbctl.Client.Requests.{http_do_create_db_request, http_do_remove_db_request}

module _ {W : Type 0} (host : Host W) where
  abbrev pub creation : Text → List Part → HttpRequest
  creation url parts = record {
    method = codes "POST";
    url = url ++ codes "/create";
    payload = form parts;
  }

  -- The server at `url` answered a creation with `uri`.
  abbrev pub Answered : Text → Text → Type 0
  Answered url uri =
      (v : W) × (parts : List Part) × (res : HttpResponse) × (((host.send (creation url parts) v).0
          ≡ ok res)
        × (res.status_code < 400)
        × (host.decode_created res.body ≡ ok uri))

  abbrev read_migrations : Config → Exec W Text
  read_migrations cfg =
      abs_or_empty host (wrap "get migraions absolute path failed, %w" []) cfg.migrations

  abbrev read_fixtures : Config → Exec W Text
  read_fixtures cfg =
      abs_or_empty host (wrap "get fixtures absolute path failed, %w" []) cfg.fixtures

  abbrev ask : Text → Config → Text → Text → Exec W Text
  ask db_type cfg migrations fixtures =
      with_context (wrap "create %s database failed: %w" (db_type ∷ [])) (
        http_do_create_db_request host (request_of db_type cfg migrations fixtures)
          (get_host_url cfg))

  abbrev with_migrations : Text → Config → Text → Exec W Text
  with_migrations db_type cfg migrations = read_fixtures cfg >>= ask db_type cfg migrations

  abbrev with_config : Text → Config → Exec W Text
  with_config db_type cfg = read_migrations cfg >>= with_migrations db_type cfg

  -- The cleanup that asks the server at `url` to remove the database, and reports a failure.
  abbrev pub removal : (Error → Exec W Unit) → Text → Text → Text → Exec W Unit
  removal report_error db_type uri url =
      try (http_do_remove_db_request host (record { db_type = db_type; uri = uri }) url)
      >>= report host report_error db_type

  abbrev cleanup_of : (Error → Exec W Unit) → Text → List Setting → Text → Exec W Unit
  cleanup_of report_error db_type opts uri =
      try (remove_db host db_type uri opts) >>= report host report_error db_type
