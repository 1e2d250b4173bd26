-- ===== src/Agent.antt =====
-- internal/agent, a module for each file.
pub mod Role
pub mod Ollama
pub mod Tools
pub mod Catalog
pub mod Accounting
pub mod Progress
pub mod Engine
