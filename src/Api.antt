-- ===== src/Api.antt =====
-- internal/api: the HTTP server's handlers.
pub mod Routes
pub mod Server
pub mod Shell
pub mod Response
pub mod Sandboxes
pub mod Agents
pub mod Proxy
