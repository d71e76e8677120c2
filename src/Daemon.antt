-- ===== src/Daemon.antt =====
-- src/daemon.rs: the process that owns the shells.
pub mod Os
pub mod Shell
pub mod Files
pub mod Env
pub mod Listing
pub mod Upkeep
pub mod Errors
pub mod Upgrade
pub mod Server
pub mod Registry
pub mod Startup
pub mod Gc
pub mod Descriptors
