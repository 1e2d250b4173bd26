-- ===== src/Examples.antt =====
-- The code on concrete inputs.
mod Memory
mod Fakes
mod Store
mod Daemon
mod Network
mod Containers
mod Cancelled
mod Runs
mod Requests
mod Routing
mod Programs
mod Hosts
mod Full
mod Contents
mod Fleet
