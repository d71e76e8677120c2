-- ===== src/Daemon/Files/Written.antt =====
-- What the writes of a shell leave at a path, its own files and those of other shells.
use livesh.Prelude.{
  ◌≤◌, ◌≡◌, ◌≢◌, none, some, [], ◌∷◌, ◌++◌, arith, length, Bytes, eq_bytes, eq_bytes_iff, false,
  Bool-cases, inl, inr, if◌then◌else◌,
}
use livesh.Prelude.Dict.{lookup, insert, remove, lookup-insert, lookup-remove}
use livesh.Protocol.{ShellId}
use livesh.Protocol.Ids.{IsFileSafe}
use livesh.Protocol.Frame.{Codec}
use livesh.Limits.EventRing
use livesh.Paths.{below_base}
use livesh.Terminal
use livesh.Terminal.{Vt100}
use livesh.Daemon.Os.{Os}
use livesh.Daemon.Shell.{ShellState}
use livesh.Daemon.Files.{
  Files, StateMetadata, persist_metadata, persist_replay_files, write_metadata, to_metadata,
  write_private_file, then_write, write_temporary, rename_metadata,
}
use livesh.Daemon.Files.Apart.{
  Kind, metadata, temporary, snapshot, scrollback, events, file, file-IsFileSafe,
}

-- An id whose files do not lead out of their directories.
abbrev pub IsNamed : ShellId → Type 0
IsNamed id = IsFileSafe id × (1 ≤ length id)

module _ (base : Bytes) where
  -- Two files of different shells have different paths.
  pub file-other :
      (k l : Kind) (id j : ShellId)
      → IsNamed id
      → IsNamed j
      → id ≢ j
      → eq_bytes (file (below_base base) k id) (file (below_base base) l j) ≡ false
  file-other k l id j u v n =
      let e = eq_bytes_iff (file (below_base base) k id) (file (below_base base) l j) in
      elim (Bool-cases (eq_bytes (file (below_base base) k id) (file (below_base base) l j))) [
        | inl b ↦ absurd (n (file-IsFileSafe base k l id j u.0 v.0 u.1 v.1 (e.0 b)).1)
        | inr b ↦ b
      ]

  -- Two different files of a shell.
  pub file-kind :
      (k l : Kind) (id : ShellId)
      → IsNamed id
      → k ≢ l
      → eq_bytes (file (below_base base) k id) (file (below_base base) l id) ≡ false
  file-kind k l id u n =
      let e = eq_bytes_iff (file (below_base base) k id) (file (below_base base) l id) in
      elim (Bool-cases (eq_bytes (file (below_base base) k id) (file (below_base base) l id))) [
        | inl b ↦ absurd (n (file-IsFileSafe base k l id id u.0 u.0 u.1 u.1 (e.0 b)).0)
        | inr b ↦ b
      ]

  module _ {P : Type 0} (vt : Vt100 P) (os : Os) (json : Codec StateMetadata) (daemon_id : Bytes)
      (writes : (path : Bytes) → os.write_file path ≡ none) (s : ShellState P)
      (named : IsNamed s.id) where
    -- What stands at a path behind a shell's flush of its replay files, if the file can be written.
    pub lookup-persist_metadata :
        (path : Bytes) {bytes : Bytes} (files : Files)
        → json.serialize (to_metadata daemon_id s) ≡ some bytes
        → lookup path (persist_metadata os json (below_base base) daemon_id s files).1 ≡ (
            if eq_bytes (file (below_base base) metadata s.id) path
            then some (bytes ++ (b'\n' ∷ []))
            else if eq_bytes (file (below_base base) temporary s.id) path
            then none
            else lookup path files)
    unfolding persist_metadata write_metadata write_temporary rename_metadata
    lookup-persist_metadata path {bytes} files e =
        let text = bytes ++ (b'\n' ∷ []) in
        let m = file (below_base base) metadata s.id in
        let t = file (below_base base) temporary s.id in
        ground (
          arith,
          e,
          writes m,
          writes t,
          lookup-insert m path text (remove t (insert t text files)),
          lookup-remove t path (insert t text files),
          lookup-insert t path text files,
        )

    pub lookup-persist_replay_files :
        (path : Bytes) (files : Files)
        → lookup path (persist_replay_files vt os (below_base base) s files).1 ≡ (
            if eq_bytes (file (below_base base) events s.id) path
            then some (EventRing.bytes s.events)
            else if eq_bytes (file (below_base base) scrollback s.id) path
            then some s.scrollback.bytes
            else if eq_bytes (file (below_base base) snapshot s.id) path
            then some (Terminal.raw_snapshot vt s.terminal)
            else lookup path files)
    unfolding persist_replay_files then_write write_private_file
    lookup-persist_replay_files path files =
        let a = file (below_base base) snapshot s.id in
        let b = file (below_base base) scrollback s.id in
        let c = file (below_base base) events s.id in
        let screen = Terminal.raw_snapshot vt s.terminal in
        let f = insert a screen files in
        let g = insert b s.scrollback.bytes f in
        ground (
          arith,
          writes a,
          writes b,
          writes c,
          lookup-insert a path screen files,
          lookup-insert b path s.scrollback.bytes f,
          lookup-insert c path (EventRing.bytes s.events) g,
        )
