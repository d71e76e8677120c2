-- ===== src/Bridge.antt =====
-- src/bridge.rs: the client's side of an attached terminal.
pub mod OutputLoop
pub mod Title
pub mod Session
pub mod InputTask
pub mod Csi
pub mod InputFilter
pub mod KeyboardReset
