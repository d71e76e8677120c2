-- ===== src/Limits.antt =====
-- src/limits.rs: the limits of the configuration; below it the bounded scrollback of a shell
-- (`BoundedBytes`) and its bounded log of output events (`EventRing`). A byte is a number, a `usize`
-- or `u64` a natural number: every size that is computed here is that of a sequence in memory.
pub mod BoundedBytes
pub mod EventRing
use livesh.Prelude.{ℕ, ◌*◌}

pub record Limits : Type 0 where
  pub max_shells : ℕ
  pub scrollback_lines_per_shell : ℕ
  pub scrollback_bytes_per_shell : ℕ
  pub event_ring_bytes_per_shell : ℕ
  pub snapshot_bytes_per_shell : ℕ
  pub global_runtime_bytes : ℕ

-- `Limits::default`
pub default_limits : Limits
default_limits = record {
  max_shells = 128;
  scrollback_lines_per_shell = 10_000;
  scrollback_bytes_per_shell = 10 * 1024 * 1024;
  event_ring_bytes_per_shell = 4 * 1024 * 1024;
  snapshot_bytes_per_shell = 2 * 1024 * 1024;
  global_runtime_bytes = 256 * 1024 * 1024;
}
