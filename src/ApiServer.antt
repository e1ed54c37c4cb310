-- ===== src/ApiServer.antt =====
-- internal/apiserver: server.go, and the start of its container in container.go.
pub mod System
pub mod Upload
pub mod Create
pub mod Remove
pub mod Run
pub mod Serve
