-- ===== src/Protocol.antt =====
-- src/protocol.rs: the messages between client and daemon, and the ids of shells and attaches.
-- A `String` or `PathBuf` is its bytes; the newtypes `ShellId` and `AttachId` are their text.
pub mod Ids
pub mod Frame
use livesh.Prelude.{ℕ, ◌*◌, Bool, List, Option, Bytes}

unfoldable pub protocol_version : ℕ
protocol_version = 3

abbrev pub ShellId : Type 0
ShellId = Bytes

abbrev pub AttachId : Type 0
AttachId = Bytes

pub data ShellStatus : Type 0 where
  running exited lost : ShellStatus

pub data ErrorCode : Type 0 where
  usage not_found daemon_unavailable internal runtime_dir : ErrorCode
  temporary_failure too_many_shells protocol_mismatch fd_limit : ErrorCode

pub data ClientKind : Type 0 where
  livesh_client liveshctl_client : ClientKind

pub record ClientHello : Type 0 where
  pub protocol : ℕ
  pub client_kind : ClientKind

pub record ServerHello : Type 0 where
  pub protocol : ℕ
  pub daemon_id : Bytes

pub record ShellInfo : Type 0 where
  pub id : ShellId
  pub name : Bytes
  pub status : ShellStatus
  pub cwd : Bytes
  pub shell_path : Bytes
  pub created_at_ms : ℕ
  pub last_active_at_ms : ℕ
  pub attached : Bool

-- A constructor's arguments are the source's fields, in their order.
pub data ClientMsg : Type 0 where
  ping : ClientMsg
  create_shell :
      (name : Option Bytes) (cwd shell_path : Bytes) (env : List (Bytes × Bytes)) (cols rows : ℕ)
      → ClientMsg
  open_shell : (id : ShellId) (cols rows : ℕ) (steal : Bool) → ClientMsg
  input : (attach_id : AttachId) (bytes : Bytes) → ClientMsg
  resize : (attach_id : AttachId) (cols rows : ℕ) → ClientMsg
  detach : (attach_id : AttachId) → ClientMsg
  list_shells : ClientMsg
  rename_shell : (id : ShellId) (name : Bytes) → ClientMsg
  kill_shell : (id : ShellId) → ClientMsg
  run_gc : ClientMsg
  kill_idle_detached : (older_than_ms : ℕ) → ClientMsg
  upgrade_daemon : (binary : Option Bytes) → ClientMsg

-- `exit_code` is signed in the source; a negative code is the number of a signal.
pub data ExitCode : Type 0 where
  code : ℕ → ExitCode
  signal : ℕ → ExitCode

pub data ServerMsg : Type 0 where
  pong : ServerMsg
  created : (id : ShellId) (name : Bytes) (restore_argv : List Bytes) → ServerMsg
  snapshot :
      (id : ShellId) (attach_id : AttachId) (seq : ℕ) (name : Bytes) (status : ShellStatus)
      (screen_bytes : Bytes)
      → ServerMsg
  output : (attach_id : AttachId) (seq : ℕ) (bytes : Bytes) → ServerMsg
  exited : (id : ShellId) (attach_id : Option AttachId) (exit_code : Option ExitCode) → ServerMsg
  detached_by_another_client : (attach_id : AttachId) → ServerMsg
  cwd_changed : (attach_id : AttachId) (cwd : Bytes) → ServerMsg
  shell_list : (shells : List ShellInfo) → ServerMsg
  ok : ServerMsg
  error : (code : ErrorCode) (message : Bytes) → ServerMsg
