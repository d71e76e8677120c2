-- ===== src/Daemon/Gc/Swept.antt =====
-- What the sweep at the start leaves.
use livesh.Prelude.{
  ◌≡◌, ap, Bool, true, false, not, ◌&&◌, none, List, [], ◌∷◌, arith, Bytes, Bool-cases, inl, inr,
  eq_bytes, eq_bytes_iff, any, if◌then◌else◌,
}
use livesh.Prelude.Dict.{lookup}
use livesh.Prelude.Result.{ok, Result-cases}
use livesh.Paths.{RuntimePaths}
use livesh.Daemon.Files.{Files}
use livesh.Daemon.Gc.{
  Directory, missing, unreadable, readable, is_below, remove_below, remove_entries,
  remove_all_entries, startup_gc,
}

-- The directories for the files of shells.
abbrev pub shell_dirs : RuntimePaths → List Bytes
shell_dirs paths = paths.states ∷ paths.snapshots ∷ paths.scrollback ∷ paths.events ∷ paths.tmp ∷ []

abbrev is_readable : Directory → Bool
is_readable missing = false
is_readable (unreadable message) = false
is_readable readable = true

-- A file that can be removed, below one of the directories that are there.
abbrev pub is_swept : (Bytes → Directory) → (Bytes → Bool) → List Bytes → Bytes → Bool
is_swept look stuck dirs path =
    any (λ dir. is_readable (look dir) && is_below dir path) dirs && not (stuck path)

lookup-remove_below :
    (stuck : Bytes → Bool) (dir path : Bytes) (files : Files)
    → lookup path (remove_below stuck dir files)
      ≡ (if is_below dir path && not (stuck path) then none else lookup path files)
unfolding remove_below lookup
lookup-remove_below stuck dir path [] = ground arith
lookup-remove_below stuck dir path ((p, bytes) ∷ files) = elim (Bool-cases (eq_bytes p path)) [
  | inl e ↦
      let same : p ≡ path = (eq_bytes_iff p path).0 e in
      let below : is_below dir p ≡ is_below dir path = ap (is_below dir) same in
      let sticks : stuck p ≡ stuck path = ap stuck same in
      ground (arith, below, sticks, e, lookup-remove_below stuck dir path files)
  | inr e ↦ ground (arith, e, lookup-remove_below stuck dir path files)
]

lookup-remove_entries :
    (look : Bytes → Directory) (stuck : Bytes → Bool) (dir path : Bytes) (files : Files)
    → lookup path (remove_entries look stuck dir files).1 ≡ (
        if (is_readable (look dir) && is_below dir path) && not (stuck path)
        then none
        else lookup path files)
unfolding remove_entries
lookup-remove_entries look stuck dir path files =
    ground (arith, lookup-remove_below stuck dir path files)

lookup-remove_all_entries :
    (look : Bytes → Directory) (stuck : Bytes → Bool) (dirs : List Bytes) (path : Bytes)
    → (files : Files) → (remove_all_entries look stuck dirs files).0 ≡ ok tt
    → lookup path (remove_all_entries look stuck dirs files).1
      ≡ (if is_swept look stuck dirs path then none else lookup path files)
unfolding remove_all_entries
lookup-remove_all_entries look stuck [] path files h = ground arith
lookup-remove_all_entries look stuck (dir ∷ dirs) path files h =
    let files' = (remove_entries look stuck dir files).1 in
    elim (Result-cases (remove_entries look stuck dir files).0) [
      | inl (u, e) ↦
          let h' : (remove_all_entries look stuck dirs files').0 ≡ ok tt = ground (arith, e, h) in
          ground (
            arith,
            e,
            lookup-remove_entries look stuck dir path files,
            lookup-remove_all_entries look stuck dirs path files' h',
          )
      | inr (m, e) ↦ absurd (ground (arith, e, h))
    ]

pub lookup-startup_gc :
    (look : Bytes → Directory) (stuck : Bytes → Bool) (paths : RuntimePaths) (path : Bytes)
    → (files : Files) → (startup_gc look stuck paths files).0 ≡ ok tt
    → lookup path (startup_gc look stuck paths files).1
      ≡ (if is_swept look stuck (shell_dirs paths) path then none else lookup path files)
unfolding startup_gc
lookup-startup_gc look stuck paths path files h =
    lookup-remove_all_entries look stuck (shell_dirs paths) path files h
