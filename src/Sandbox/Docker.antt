-- ===== src/Sandbox/Docker.antt =====
-- internal/sandbox/docker.go, in parts; `docker_driver` puts them together.
pub mod Paths
pub mod Client
pub mod Once
pub mod Host
pub mod Setup
pub mod Create
pub mod Exec
pub mod Files
pub mod Containers
pub mod Cancelled
pub mod Effects
pub mod Names
