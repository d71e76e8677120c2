-- ===== src/Tests/Codecs.antt =====
-- A serialiser for the messages that the examples send: the first number tells them apart.
use livesh.Prelude.{
  arith, zero, suc, ◌≡◌, refl, true, false, Option, none, some, [], ◌∷◌, ◌++◌, Bytes, length, take,
  drop, take-append_length, drop-append_length,
}
use livesh.Protocol.{
  ClientHello, ServerHello, ClientMsg, ServerMsg, livesh_client, liveshctl_client, open_shell,
  input, kill_shell, list_shells, snapshot, cwd_changed, shell_list, not_found, running,
}
use livesh.Protocol.Frame.{RoundTrips}
use livesh.Client.{Codecs}
use livesh.Client.Calls.{IsLawful}

-- Two texts in one.
abbrev pair : Bytes → Bytes → Bytes
pair a b = length a ∷ (a ++ b)

abbrev split_pair : Bytes → Bytes × Bytes
split_pair [] = ([], [])
split_pair (n ∷ s) = (take n s, drop n s)

split_pair-pair : (a b : Bytes) → split_pair (pair a b) ≡ (a, b)
split_pair-pair a b = rw (take-append_length a b, drop-append_length a b) refl

abbrev encode_client_hello : ClientHello → Option Bytes
encode_client_hello h = elim h.client_kind [
  | livesh_client ↦ some (h.protocol ∷ [])
  | liveshctl_client ↦ some (h.protocol ∷ 0 ∷ [])
]

abbrev decode_client_hello : Bytes → Option ClientHello
decode_client_hello (n ∷ []) = some (record { protocol = n; client_kind = livesh_client })
decode_client_hello (n ∷ m ∷ []) = some (record { protocol = n; client_kind = liveshctl_client })
decode_client_hello _ = none

abbrev encode_server_hello : ServerHello → Option Bytes
encode_server_hello h = some (h.protocol ∷ h.daemon_id)

abbrev decode_server_hello : Bytes → Option ServerHello
decode_server_hello [] = none
decode_server_hello (n ∷ id) = some (record { protocol = n; daemon_id = id })

abbrev encode_client_msg : ClientMsg → Option Bytes
encode_client_msg list_shells = some (0 ∷ [])
encode_client_msg (kill_shell id) = some (1 ∷ id)
encode_client_msg (input attach_id bytes) = some (2 ∷ pair attach_id bytes)
encode_client_msg (open_shell id cols rows true) = some (3 ∷ cols ∷ rows ∷ id)
encode_client_msg _ = none

abbrev decode_client_msg : Bytes → Option ClientMsg
decode_client_msg (zero ∷ []) = some list_shells
decode_client_msg (suc zero ∷ id) = some (kill_shell id)
decode_client_msg (suc (suc zero) ∷ s) =
    let (attach_id, bytes) = split_pair s in some (input attach_id bytes)
decode_client_msg (suc (suc (suc zero)) ∷ cols ∷ rows ∷ id) = some (open_shell id cols rows true)
decode_client_msg _ = none

abbrev encode_server_msg : ServerMsg → Option Bytes
encode_server_msg ServerMsg.ok = some (0 ∷ [])
encode_server_msg (shell_list []) = some (1 ∷ [])
encode_server_msg (cwd_changed attach_id cwd) = some (2 ∷ pair attach_id cwd)
encode_server_msg (snapshot id attach_id seq name running screen) =
    some (3 ∷ seq ∷ pair id (pair attach_id (pair name screen)))
encode_server_msg (ServerMsg.error not_found message) = some (4 ∷ message)
encode_server_msg _ = none

abbrev decode_server_msg : Bytes → Option ServerMsg
decode_server_msg (zero ∷ []) = some ServerMsg.ok
decode_server_msg (suc zero ∷ []) = some (shell_list [])
decode_server_msg (suc (suc zero) ∷ s) =
    let (attach_id, cwd) = split_pair s in some (cwd_changed attach_id cwd)
decode_server_msg (suc (suc (suc zero)) ∷ seq ∷ s) =
    let (id, t) = split_pair s in
    let (attach_id, u) = split_pair t in
    let (name, screen) = split_pair u in some (snapshot id attach_id seq name running screen)
decode_server_msg (suc (suc (suc (suc zero))) ∷ message) = some (ServerMsg.error not_found message)
decode_server_msg _ = none

abbrev pub test_codecs : Codecs
test_codecs = record {
  client_hello = record { serialize = encode_client_hello; deserialize = decode_client_hello };
  server_hello = record { serialize = encode_server_hello; deserialize = decode_server_hello };
  client_msg = record { serialize = encode_client_msg; deserialize = decode_client_msg };
  server_msg = record { serialize = encode_server_msg; deserialize = decode_server_msg };
}

reads_client_hello : RoundTrips test_codecs.client_hello
reads_client_hello h p e =
    elim h.client_kind
        as (λ k.
          encode_client_hello (record h { client_kind = k }) ≡ some p
          → decode_client_hello p ≡ some (record h { client_kind = k })) [
            | livesh_client ↦ λ e. ground arith
            | liveshctl_client ↦ λ e. ground arith
          ]
      e

reads_server_hello : RoundTrips test_codecs.server_hello
reads_server_hello h p e = ground arith

reads_client_msg : RoundTrips test_codecs.client_msg
reads_client_msg list_shells p e = ground arith
reads_client_msg (kill_shell id) p e = ground arith
reads_client_msg (input attach_id bytes) p e = ground (arith, split_pair-pair attach_id bytes)
reads_client_msg (open_shell id cols rows true) p e = ground arith
reads_client_msg (open_shell id cols rows false) p e = absurd (ground arith)
reads_client_msg _ p e = absurd (ground arith)

reads_server_msg : RoundTrips test_codecs.server_msg
reads_server_msg ServerMsg.ok p e = ground arith
reads_server_msg (cwd_changed attach_id cwd) p e = ground (arith, split_pair-pair attach_id cwd)
reads_server_msg (shell_list []) p e = ground arith
reads_server_msg (snapshot id attach_id seq name running screen) p e = ground (
  arith,
  split_pair-pair id (pair attach_id (pair name screen)),
  split_pair-pair attach_id (pair name screen),
  split_pair-pair name screen,
)
reads_server_msg (ServerMsg.error not_found message) p e = ground arith
reads_server_msg _ p e = absurd (ground arith)

pub test_codecs-IsLawful : IsLawful test_codecs
test_codecs-IsLawful = record {
  client_hello = reads_client_hello;
  server_hello = reads_server_hello;
  client_msg = reads_client_msg;
  server_msg = reads_server_msg;
}
