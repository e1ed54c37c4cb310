-- ===== src/Cmd/Api.antt =====
-- cmd/api.go and cmd/root.go: the command that serves, and what runs before every command.
use dbctl.Base.{
  ℕ, Bool, Option, some, [], String, Text, codes, is_empty, wrap, Result, Exec, pure, lift, ◌>>=◌,
  ◌>>◌, if◌then◌else◌, with_context,
}
use dbctl.Base.Dict.{Dict}
use dbctl.Container.{env_listen}
use dbctl.Database.{Instance}
use dbctl.Redis.Start.{Host}
use dbctl.ApiServer.System.{System}
use dbctl.ApiServer.Create.{Server, new_server}
use dbctl.ApiServer.Run.{run_api_server_container}
use dbctl.Cmd.Flags.{Flags}

module _ {W : Type 0} (flags : Flags) where
  abbrev arg : {A : Type 0} → String → Result A → Exec W A
  arg message r = with_context (wrap message []) (lift r)

  -- `PersistentPreRunE`: the address to listen on goes into the environment, for the modelled code that
  -- reads it there.
  unfoldable pub pre_run : (Text → Text → Exec W Unit) → Exec W Unit
  pre_run setenv = do
    listen ← arg "invalid listen args, %w" (flags.get_string (codes "listen"))
    if is_empty listen then pure tt else setenv env_listen listen

  -- `serve` is `Server.Start`; `none` is a wait that still runs.
  module _ (sys : System W) (host : Host W) (timed_out : Exec W Bool)
      (encode : Dict Instance → Text) (serve : Server → Exec W Unit) where
    unfoldable pub run_testing_api_server : ℕ → Exec W (Option Unit)
    unfolding run_api_server_container new_server
    run_testing_api_server ticks = do
      port ← arg "invalid port args, %w" (flags.get_string (codes "port"))
      label ← arg "invalid label args, %w" (flags.get_string (codes "label"))
      testing ← arg "invalid testing args, %w" (flags.get_bool (codes "testing"))
      if testing
          then run_api_server_container sys.engine host timed_out sys.env encode ticks port label
          else (serve (new_server sys port label) >> pure (some tt))
