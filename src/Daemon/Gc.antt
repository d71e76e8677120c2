-- ===== src/Daemon/Gc.antt =====
-- src/gc.rs, the sweep at the start of the daemon: `startup_gc` and `remove_entries`.
pub mod Swept
use livesh.Prelude.{Bool, not, ◌&&◌, List, [], ◌∷◌, ◌++◌, if◌then◌else◌, Bytes, codes, starts_with}
use livesh.Prelude.Result.{Result, ok, err}
use livesh.Paths.{RuntimePaths}
use livesh.Daemon.Files.{Files}

-- What `exists` and `read_dir` say of a directory.
pub data Directory : Type 0 where
  missing : Directory
  unreadable : (message : Bytes) → Directory
  readable : Directory

unfoldable pub is_below : Bytes → Bytes → Bool
unfolding starts_with
is_below dir path = starts_with (dir ++ codes "/") path

-- The removal of each entry, with what is below it. The first argument tells of the files that cannot
-- be removed, which is ignored.
unfoldable pub remove_below : (Bytes → Bool) → Bytes → Files → Files
remove_below stuck dir [] = []
remove_below stuck dir ((path, bytes) ∷ files) =
    let rest = remove_below stuck dir files in
    if is_below dir path && not (stuck path) then rest else (path, bytes) ∷ rest

unfoldable pub remove_entries :
    (Bytes → Directory) → (Bytes → Bool) → Bytes → Files → Result (Unit {0}) × Files
unfolding remove_below
remove_entries look stuck dir files = elim (look dir) [
  | missing ↦ (ok tt, files)
  | unreadable message ↦ (err message, files)
  | readable ↦ (ok tt, remove_below stuck dir files)
]

-- The calls in their order, up to the first that fails.
unfoldable pub remove_all_entries :
    (Bytes → Directory) → (Bytes → Bool) → List Bytes → Files → Result (Unit {0}) × Files
unfolding remove_entries
remove_all_entries look stuck [] files = (ok tt, files)
remove_all_entries look stuck (dir ∷ dirs) files =
    let (r, files') = remove_entries look stuck dir files in
    elim r [ ok u ↦ remove_all_entries look stuck dirs files' | err e ↦ (err e, files') ]

abbrev pub swept_dirs : RuntimePaths → List Bytes
swept_dirs paths = paths.states ∷ paths.snapshots ∷ paths.scrollback ∷ paths.events ∷ paths.tmp ∷ []

unfoldable pub startup_gc :
    (Bytes → Directory) → (Bytes → Bool) → RuntimePaths → Files → Result (Unit {0}) × Files
unfolding remove_all_entries
startup_gc look stuck paths files = remove_all_entries look stuck (swept_dirs paths) files
