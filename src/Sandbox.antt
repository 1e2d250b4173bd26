-- ===== src/Sandbox.antt =====
-- internal/sandbox, a module for each file.
pub mod Driver
pub mod Env
pub mod Registry
pub mod Reaper
pub mod Docker
pub mod Fleet
pub mod Firecracker
