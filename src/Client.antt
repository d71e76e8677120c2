-- ===== src/Client.antt =====
-- src/client.rs: the calls of a client, each a message that is sent and one that is received, over
-- any connection. `Wire` connects them with the daemon.
pub mod Wire
pub mod Calls
pub mod Session
pub mod Serving
pub mod Gone
pub mod Handshake
pub mod Control
use livesh.Prelude.{ℕ, Bool, Option, none, some, List, ◌⊎◌, inl, inr, ◌==◌, if◌then◌else◌, Bytes}
use livesh.Protocol.{
  ShellId, AttachId, ShellStatus, ShellInfo, ErrorCode, ClientKind, ClientHello, ServerHello,
  ClientMsg, ServerMsg, protocol_version, pong, created, snapshot, shell_list,
}
use livesh.Protocol.Frame.{Codec}
use livesh.Protocol.Frame.Link.{Link, LinkError, write_frame, read_frame}

-- The serialiser, at the types that go over a connection.
pub record Codecs : Type 0 where
  pub client_hello : Codec ClientHello
  pub server_hello : Codec ServerHello
  pub client_msg : Codec ClientMsg
  pub server_msg : Codec ServerMsg

pub data ClientError : Type 0 where
  -- `ServerError`
  server : ErrorCode → Bytes → ClientError
  unexpected : ServerMsg → ClientError
  link : LinkError → ClientError
  protocol_mismatch : ℕ → ClientError

pub record CreatedShell : Type 0 where
  pub id : ShellId
  pub name : Bytes
  pub restore_argv : List Bytes

pub record Snapshot : Type 0 where
  pub id : ShellId
  pub attach_id : AttachId
  pub seq : ℕ
  pub name : Bytes
  pub status : ShellStatus
  pub screen_bytes : Bytes

-- The matches on the answer, by what each call waits for.
abbrev pub ping_answer : ServerMsg → Unit {0} ⊎ ClientError
ping_answer pong = inl tt
ping_answer (ServerMsg.error code message) = inr (server code message)
ping_answer other = inr (unexpected other)

abbrev pub create_answer : ServerMsg → CreatedShell ⊎ ClientError
create_answer (created id name argv) = inl (record { id = id; name = name; restore_argv = argv })
create_answer (ServerMsg.error code message) = inr (server code message)
create_answer other = inr (unexpected other)

abbrev pub open_answer : ServerMsg → Snapshot ⊎ ClientError
open_answer (snapshot id attach_id seq name status screen_bytes) = inl (record {
  id = id;
  attach_id = attach_id;
  seq = seq;
  name = name;
  status = status;
  screen_bytes = screen_bytes;
})
open_answer (ServerMsg.error code message) = inr (server code message)
open_answer other = inr (unexpected other)

abbrev pub list_answer : ServerMsg → List ShellInfo ⊎ ClientError
list_answer (shell_list shells) = inl shells
list_answer (ServerMsg.error code message) = inr (server code message)
list_answer other = inr (unexpected other)

abbrev pub ok_answer : ServerMsg → Unit {0} ⊎ ClientError
ok_answer ServerMsg.ok = inl tt
ok_answer (ServerMsg.error code message) = inr (server code message)
ok_answer other = inr (unexpected other)

module _ {L : Type 0} (k : Link L) (codecs : Codecs) where
  abbrev link_error : Option LinkError × L → Option ClientError × L
  link_error (none, l) = (none, l)
  link_error (some e, l) = (some (link e), l)

  unfoldable pub send : L → ClientMsg → Option ClientError × L
  unfolding write_frame
  send l msg = link_error (write_frame k codecs.client_msg l msg)

  abbrev link_result : {A : Type 0} → (A ⊎ LinkError) × L → (A ⊎ ClientError) × L
  link_result (inl v, l) = (inl v, l)
  link_result (inr e, l) = (inr (link e), l)

  unfoldable pub recv : L → (ServerMsg ⊎ ClientError) × L
  unfolding read_frame
  recv l = link_result (read_frame k codecs.server_msg l)

  abbrev answered :
      {A : Type 0}
      → (ServerMsg → A ⊎ ClientError)
      → (ServerMsg ⊎ ClientError) × L
      → (A ⊎ ClientError) × L
  answered match_answer (inl msg, l) = (match_answer msg, l)
  answered match_answer (inr e, l) = (inr e, l)

  abbrev then_recv :
      {A : Type 0} → (ServerMsg → A ⊎ ClientError) → Option ClientError × L → (A ⊎ ClientError) × L
  then_recv match_answer (some e, l) = (inr e, l)
  then_recv match_answer (none, l) = answered match_answer (recv l)

  -- What the calls share: the message is sent, and one answer is received and matched.
  unfoldable pub call :
      {A : Type 0} → (ServerMsg → A ⊎ ClientError) → L → ClientMsg → (A ⊎ ClientError) × L
  unfolding send recv
  call match_answer l msg = then_recv match_answer (send l msg)

  unfoldable pub ping : L → (Unit {0} ⊎ ClientError) × L
  unfolding call
  ping l = call ping_answer l ClientMsg.ping

  unfoldable pub create_shell :
      L
      → (name : Option Bytes) (cwd shell_path : Bytes)
      → (env : List (Bytes × Bytes)) (cols rows : ℕ) → (CreatedShell ⊎ ClientError) × L
  unfolding call
  create_shell l name cwd shell_path env cols rows =
      call create_answer l (ClientMsg.create_shell name cwd shell_path env cols rows)

  unfoldable pub open_shell :
      L → ShellId → (cols rows : ℕ) (steal : Bool) → (Snapshot ⊎ ClientError) × L
  unfolding call
  open_shell l id cols rows steal = call open_answer l (ClientMsg.open_shell id cols rows steal)

  unfoldable pub list_shells : L → (List ShellInfo ⊎ ClientError) × L
  unfolding call
  list_shells l = call list_answer l ClientMsg.list_shells

  unfoldable pub expect_ok : L → ClientMsg → (Unit {0} ⊎ ClientError) × L
  unfolding call
  expect_ok l msg = call ok_answer l msg

  -- `from_stream` behind the write of the hello: the daemon's id, if it speaks the same protocol.
  abbrev greeted : (ServerHello ⊎ LinkError) × L → (Bytes ⊎ ClientError) × L
  greeted (inr e, l) = (inr (link e), l)
  greeted (inl hello, l) =
      if hello.protocol == protocol_version
      then (inl hello.daemon_id, l)
      else (inr (protocol_mismatch hello.protocol), l)

  abbrev then_greeted : Option LinkError × L → (Bytes ⊎ ClientError) × L
  then_greeted (some e, l) = (inr (link e), l)
  then_greeted (none, l) = greeted (read_frame k codecs.server_hello l)

  unfoldable pub from_stream : L → ClientKind → (Bytes ⊎ ClientError) × L
  unfolding write_frame read_frame
  from_stream l kind = then_greeted (
      write_frame k codecs.client_hello l
        (record { protocol = protocol_version; client_kind = kind }))
