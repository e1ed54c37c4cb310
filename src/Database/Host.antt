-- ===== src/Database/Host.antt =====
-- How the packages pg, redis and mongodb address the host that the instances run on.
use dbctl.Base.{Text, codes, text_eq, replace_all, if◌then◌else◌, Bool}
use dbctl.Container.{Env}

abbrev pub inside_docker : Env → Bool
inside_docker env = text_eq (env (codes "DBCTL_INSIDE_DOCKER")) (codes "true")

abbrev pub address : Env → Text
address env = if inside_docker env then codes "host.docker.internal" else codes "localhost"

-- `hostURI`
unfoldable pub host_uri : Env → Text → Text
unfolding replace_all
host_uri env uri =
    if inside_docker env
    then replace_all uri (codes "host.docker.internal") (codes "localhost")
    else uri
