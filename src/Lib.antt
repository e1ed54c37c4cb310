-- ===== src/Lib.antt =====
-- dbctl, verified.
--
-- dbctl starts PostgreSQL, Redis and MongoDB in Docker containers and hands out databases on them,
-- from the command line and through an HTTP server. The containers carry labels, and everything
-- that the program knows of an instance it reads back from them: no state is kept anywhere else.
--
-- The parts and their files:
--   internal/utils/utils.go                  Utils
--   internal/container/{models,docker_rest}.go   Container; the engine is Container/Docker
--   internal/database/database.go            Database, with the labels in Database/Selection
--   internal/database/redis/                 Redis: config.go in Redis, redis.go in Redis/Index (numbered
--                                            databases) and Redis/Start, fixtures.go in Redis/Fixtures
--   internal/database/postgres/              Postgres: config.go in Postgres, pg.go in Postgres/Create
--                                            and Postgres/Start; what the servers do to their databases is
--                                            Postgres/Cluster
--   internal/database/mongodb/               Mongo: config.go in Mongo, mongodb.go in Mongo/Script and
--                                            Mongo/Admin
--   internal/apiserver/                      ApiServer: server.go in ApiServer/Create, ApiServer/Remove and
--                                            ApiServer/Upload, its listening in ApiServer/Serve, container.go
--                                            in ApiServer/Run
--   cmd/                                     Cmd: stop.go in Cmd/Stop, start/ in Cmd/Start, list.go in Cmd/List,
--                                            testing/ in Cmd/Testing, api.go and root.go in Cmd/Api,
--                                            describe/pg.go in Cmd/Describe, and the names and flags of
--                                            the commands in Cmd/Declared
--   internal/selfupdate/                     SelfUpdate: version.go in SelfUpdate, selfupdate.go in
--                                            SelfUpdate/Release and SelfUpdate/Install
--   cmd/selfupdate.go                        SelfUpdate/Command
--   internal/table/, internal/logger/        Table and Logger
--   clients/dbctlgo/                         Client: client.go in Client, Client/Requests and Client/Files,
--                                            options.go in Client/Options
-- The walk of a directory that the three database packages share is Files/Walk, and URLs are Net/Url.
-- The tests and the theorems at concrete inputs are in Tests. Base holds what the parts share.
--
-- Functions keep their names in snake case: `FindInstance` is `find_instance`, `CreateDB` of the
-- package pg is `Postgres.Create.create_db`. A call that may fail and change the world is an `Exec
-- W A` of Base/Outcome: it takes the world before it to a result and the world after it. `defer`
-- runs its closer on every path. An error is a value that keeps its format and what it wraps. What
-- the program calls but does not contain is a parameter: the Docker engine (`Engine`), the Redis
-- server (`Server`), the SQL driver (`Sql`), the MongoDB driver (`Client`), the file system
-- (`Files`), what the HTTP server uses (`System`), what the Go client uses (`Client.Http.Host`),
-- the flags of a command (`Flags`) and what an update uses (`Machine`). The theorems that need the
-- behaviour of one of them take it as a record of laws: `Observed` for the engine, `IsUp` for a
-- Redis server, `Cluster` for the databases of the PostgreSQL servers that connections lead to,
-- `IsReceived` for a form on its way, `IsDirectory` for the files of a directory, `IsParsed` for
-- the flags of a command line. Texts are lists of code points. Functions of Go's library on texts,
-- paths and URLs are written out, for ASCII where Go goes byte by byte. Maps are association lists;
-- an order that Go leaves open is that of the list.
--
-- Fuel: the loops that wait for a server or for a port run on a number of ticks, and give `none`
-- when they still run. Every result other than `none` is the result of the source for any larger
-- number. A loop over a list is structural.
--
-- Not modelled: how the commands hang together, which are calls of cobra, the Python client, the
-- loop of net/http that accepts connections, which is a parameter of the server's start, and the
-- delivery of signals: Utils says which ones end a context. Log lines are left out, except in
-- Logger. A command that is not detached is taken to be told to stop at once. Contexts appear only
-- through the errors of the calls that they end.
pub mod Base
pub mod Net
pub mod Utils
pub mod Files
pub mod Redis
pub mod Postgres
pub mod Mongo
pub mod ApiServer
pub mod Container
pub mod Database
pub mod Cmd
pub mod SelfUpdate
pub mod Client
pub mod Table
pub mod Logger
pub mod Tests
