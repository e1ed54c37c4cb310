-- ===== src/Tests.antt =====
-- Concrete engines, servers and requests, and the theorems applied to them.
mod Docker
mod Stop
mod Database
mod Redis
mod Postgres
mod ApiServer
mod Texts
mod SelfUpdate
mod Client
mod Commands
mod Update
mod Uris
mod Cluster
mod Sessions
mod Told
mod Configured
mod Containers
