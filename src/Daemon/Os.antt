-- ===== src/Daemon/Os.antt =====
-- What the daemon is told by the system while it handles one event: the clock, a fresh UUID, and
-- the answers of the calls that may fail. An answer of `none` is success, `some` an error's text.
use livesh.Prelude.{ℕ, Bool, List, Option, Bytes}

-- The answer to `openpty`, `spawn_command`, `from_portable` and `clone_reader` in `create_shell`.
pub data Spawned : Type 0 where
  failed : (message : Bytes) → Spawned
  started : (master_fd : ℕ) (pid : Option ℕ) → Spawned

pub record Os : Type 0 where
  pub now_ms : ℕ
  pub uuid : Bytes
  pub spawn : (shell_path cwd : Bytes) (env : List (Bytes × Bytes)) (rows cols : ℕ) → Spawned
  pub resize_pty : (fd cols rows : ℕ) → Option Bytes
  pub write_pty : (fd : ℕ) (bytes : Bytes) → Option Bytes
  pub write_file : (path : Bytes) → Option Bytes
  -- `kill(pid, None).is_ok()`
  pub is_alive : ℕ → Bool
  -- The receiver of a client's messages has not been dropped.
  pub is_open : ℕ → Bool
  pub upgrade_is_open : Bool
  pub runtime_size : ℕ
  -- Whether `read_dir` succeeds on a directory, and whether `remove_file` fails on a file.
  pub is_listed : Bytes → Bool
  pub is_stuck : Bytes → Bool
