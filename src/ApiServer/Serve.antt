-- ===== src/ApiServer/Serve.antt =====
-- server.go: where the server listens, which paths it serves, and how it ends.
use dbctl.Base.{
  ◌≡◌, refl, Option, none, some, if◌then◌else◌, Text, codes, text_eq, Error, errorf, wrap, Result,
  ok, err, Exec, pure, raise, [], ◌∷◌, ◌>>=◌, try,
}
use dbctl.Container.{Env, loopback_address}
use dbctl.Database.Host.{inside_docker}
use dbctl.Net.Url.{join_host_port}
use dbctl.ApiServer.System.{System, Request, Response}
use dbctl.ApiServer.Create.{Server, create_db}
use dbctl.ApiServer.Remove.{remove_db}

unfoldable pub listen_address : Env → Server → Text
unfolding join_host_port
listen_address env s = join_host_port (if inside_docker env then [] else loopback_address) s.port

-- What the `select` waits for.
pub data Event : Type 0 where
  interrupted : Event
  failed : Error → Event

module _ {W : Type 0} (sys : System W) where
  abbrev pub Handler : Type 0
  Handler = Request → W → Response × W

  -- The handlers of the paths. Patterns that do not end in a slash are matched whole; for any other path
  -- the package net/http answers.
  unfoldable pub handler_of : Server → Text → Option Handler
  unfolding create_db remove_db
  handler_of s path =
      if text_eq path (codes "/create")
      then some (create_db sys s)
      else if text_eq path (codes "/remove")
      then some (remove_db sys)
      else none

  -- `listen` is `ListenAndServe` up to what ends the wait, and `shutdown` that of net/http. An error of it
  -- ends the process, here by an error without its text.
  unfoldable pub start :
      (Text → (Text → Option Handler) → Exec W Event) → Exec W Unit → Server → Exec W Unit
  unfolding listen_address handler_of
  start listen shutdown s = do
    event ← listen (listen_address sys.env s) (handler_of s)
    elim event [
      | failed e ↦ raise e
      | interrupted ↦ do
        stopped ← try shutdown
        elim stopped [
          | ok _ ↦ pure tt
          | err e ↦ raise (errorf "testing server shutdown failed, %v" [])
        ]
    ]

listen_address_test :
    listen_address (λ name. []) (record { port = codes "1988"; label = []; instances = [] })
    ≡ codes "127.0.0.1:1988"
unfolding listen_address dbctl.Base.text_discrete
listen_address_test = refl
