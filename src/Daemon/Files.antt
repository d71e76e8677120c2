-- ===== src/Daemon/Files.antt =====
-- The files that the daemon writes and removes: src/daemon.rs (`write_private_file`,
-- `remove_orphans`, `pid_hint_path`, `persist_metadata`, `persist_replay_files`), src/metadata.rs and
-- src/gc.rs (`remove_shell_files`). The file system is a dictionary from paths to contents.
pub mod Orphans
pub mod Apart
pub mod Written
use livesh.Prelude.{
  ℕ, Bool, true, false, not, ◌&&◌, Option, none, some, List, [], ◌∷◌, ◌++◌, any, ◌==◌,
  if◌then◌else◌, Bytes, codes, eq_bytes, strip_prefix,
}
use livesh.Prelude.Dict.{Dict, lookup, insert, remove}
use livesh.Prelude.Result.{Result, ok, err}
use livesh.Protocol.{ShellId, ShellStatus}
use livesh.Protocol.Frame.{Codec}
use livesh.Paths
use livesh.Paths.{RuntimePaths}
use livesh.Terminal
use livesh.Terminal.{Vt100}
use livesh.Limits.EventRing
use livesh.Daemon.Os.{Os}
use livesh.Daemon.Shell.{ShellState}

abbrev pub Files : Type 0
Files = Dict Bytes

-- `StateMetadata`
pub record StateMetadata : Type 0 where
  pub schema : ℕ
  pub id : ShellId
  pub name : Bytes
  pub status : ShellStatus
  pub cwd : Bytes
  pub shell_path : Bytes
  pub daemon_id : Bytes
  pub created_at_ms : ℕ
  pub last_active_at_ms : ℕ
  pub rows : ℕ
  pub cols : ℕ

unfoldable pub pid_hint_path : RuntimePaths → ShellId → Bytes
unfolding Paths.join
pid_hint_path paths id = Paths.join paths.states (id ++ codes ".pid")

-- `write_private_file`: the file is made or replaced.
unfoldable pub write_private_file : Os → Bytes → Bytes → Files → Result (Unit {0}) × Files
write_private_file os path bytes files = elim (os.write_file path) [
  | some e ↦ (err e, files)
  | none ↦ (ok tt, insert path bytes files)
]

abbrev pub not_serialized : Bytes
not_serialized = codes "metadata serialization"

-- The rename of the temporary file over the final one.
rename_metadata : Os → Bytes → Bytes → Files → Result (Unit {0}) × Files
rename_metadata os path bytes files = elim (os.write_file path) [
  | some e ↦ (err (codes "rename metadata " ++ path), files)
  | none ↦ (ok tt, insert path bytes (remove (path ++ codes ".tmp") files))
]

write_temporary : Os → Bytes → Bytes → Files → Result (Unit {0}) × Files
unfolding rename_metadata
write_temporary os path bytes files = elim (os.write_file (path ++ codes ".tmp")) [
  | some e ↦ (err (codes "open metadata temp file " ++ (path ++ codes ".tmp")), files)
  | none ↦ rename_metadata os path bytes (insert (path ++ codes ".tmp") bytes files)
]

-- `write_metadata`: to a temporary file beside it, then renamed; JSON (serde) is a parameter.
unfoldable pub write_metadata :
    Os → Codec StateMetadata → Bytes → StateMetadata → Files → Result (Unit {0}) × Files
unfolding write_temporary
write_metadata os json path m files = elim (json.serialize m) [
  | none ↦ (err not_serialized, files)
  | some bytes ↦ write_temporary os path (bytes ++ (b'\n' ∷ [])) files
]

-- `remove_shell_files`, and the `remove_file` behind it in `cleanup_shell`.
unfoldable pub remove_shell_files : RuntimePaths → ShellId → Files → Files
remove_shell_files paths id files = remove (Paths.events paths id) (
    remove (Paths.scrollback paths id)
      (remove (Paths.snapshot paths id) (remove (Paths.metadata paths id) files)))

-- The last dot of a file's name, and what stands on its sides.
abbrev extend_left : ℕ → Bytes → Option (Bytes × Bytes) → Option (Bytes × Bytes)
extend_left c cs none = if c == b'.' then some ([], cs) else none
extend_left c cs (some (a, b)) = some (c ∷ a, b)

abbrev pub rsplit_dot : Bytes → Option (Bytes × Bytes)
rsplit_dot [] = none
rsplit_dot (c ∷ cs) = extend_left c cs (rsplit_dot cs)

-- `file_stem` and `extension`: a name's only dot in front is no extension's.
abbrev pub stem_extension : Bytes → Option (Bytes × Bytes) → Bytes × Option Bytes
stem_extension name none = (name, none)
stem_extension name (some ([], b)) = (name, none)
stem_extension name (some (c ∷ a, b)) = (c ∷ a, some b)

abbrev is_extension : Option Bytes → Bytes → Bool
is_extension none e = false
is_extension (some b) e = eq_bytes b e

-- A file of the directory itself, by its name.
abbrev pub name_in : Bytes → Bytes → Option Bytes
unfolding strip_prefix
name_in dir path = elim (strip_prefix (dir ++ codes "/") path) [
  | none ↦ none
  | some name ↦ if any (λ c. c == b'/') name then none else some name
]

abbrev orphan_name : List Bytes → Bytes → Option Bytes → Bool
orphan_name live extension none = false
orphan_name live extension (some name) =
    let (stem, e) = stem_extension name (rsplit_dot name) in
    is_extension e extension && not (any (λ id. eq_bytes id stem) live)

unfoldable pub is_orphan : Bytes → List Bytes → Bytes → Bytes → Bool
unfolding name_in eq_bytes
is_orphan dir live extension path = orphan_name live extension (name_in dir path)

unfoldable pub remove_listed : (Bytes → Bool) → Bytes → List Bytes → Bytes → Files → Files
unfolding is_orphan
remove_listed is_stuck dir live extension [] = []
remove_listed is_stuck dir live extension ((path, bytes) ∷ files) =
    let rest = remove_listed is_stuck dir live extension files in
    if is_orphan dir live extension path && not (is_stuck path) then rest else (path, bytes) ∷ rest

-- `remove_orphans`: nothing happens if the directory cannot be read, and a file that cannot be
-- removed stays.
unfoldable pub remove_orphans : Os → Bytes → List Bytes → Bytes → Files → Files
unfolding remove_listed
remove_orphans os dir live extension files =
    if os.is_listed dir then remove_listed os.is_stuck dir live extension files else files

module _ {P : Type 0} (vt : Vt100 P) where
  then_write : Os → Result (Unit {0}) × Files → Bytes → Bytes → Result (Unit {0}) × Files
  then_write os (err e, files) path bytes = (err e, files)
  then_write os (ok u, files) path bytes = write_private_file os path bytes files

  -- `persist_replay_files`: three files, up to the first that fails.
  unfoldable pub persist_replay_files :
      Os → RuntimePaths → ShellState P → Files → Result (Unit {0}) × Files
  unfolding then_write
  persist_replay_files os paths s files =
      then_write os
        (then_write os
          (write_private_file os (Paths.snapshot paths s.id) (Terminal.raw_snapshot vt s.terminal)
            files)
          (Paths.scrollback paths s.id) s.scrollback.bytes)
        (Paths.events paths s.id) (EventRing.bytes s.events)

-- `persist_metadata`; `size` holds the rows and the columns.
unfoldable pub to_metadata : {P : Type 0} → Bytes → ShellState P → StateMetadata
to_metadata daemon_id s = record {
  schema = 1;
  id = s.id;
  name = s.name;
  status = s.status;
  cwd = s.cwd;
  shell_path = s.shell_path;
  daemon_id = daemon_id;
  created_at_ms = s.created_at_ms;
  last_active_at_ms = s.last_active_at_ms;
  rows = s.size.0;
  cols = s.size.1;
}

unfoldable pub persist_metadata :
    {P : Type 0}
    → Os
    → Codec StateMetadata
    → RuntimePaths
    → Bytes
    → ShellState P
    → Files
    → Result (Unit {0}) × Files
unfolding write_metadata to_metadata
persist_metadata os json paths daemon_id s files =
    write_metadata os json (Paths.metadata paths s.id) (to_metadata daemon_id s) files
