-- ===== src/Daemon/Upkeep.antt =====
-- src/daemon.rs, the sweeps of the registry: `kill_idle_detached`, `cleanup_dead_shells`,
-- `prune_storage_caps` and `run_gc`.
pub mod Idle
pub mod Sound
use livesh.Prelude.{
  ℕ, suc, ◌-◌, Bool, true, false, not, Option, none, some, List, [], ◌∷◌, ◌++◌, length, ltb, leb,
  if◌then◌else◌, Bytes, codes,
}
use livesh.Prelude.Dict.{Dict, insert, keys}
use livesh.Protocol.{ShellId}
use livesh.Terminal.{Vt100}
use livesh.Daemon.Os.{Os}
use livesh.Daemon.Shell
use livesh.Daemon.Shell.{ShellState}
use livesh.Daemon.Files.{Files, persist_replay_files, remove_orphans}
use livesh.Daemon.Registry.{Registry, Daemon, cleanup_shell, terminate}

abbrev is_dead : Os → Option ℕ → Bool
is_dead os none = false
is_dead os (some pid) = not (os.is_alive pid)

module _ {P : Type 0} where
  -- The filter of `kill_idle_detached`.
  abbrev pub is_idle : ℕ → ShellState P → Bool
  is_idle cutoff s =
      if Shell.is_attached s then false else if ltb cutoff s.last_active_at_ms then false else true

  abbrev pub victims : ℕ → Dict (ShellState P) → List (ShellId × Option ℕ)
  victims cutoff [] = []
  victims cutoff ((id, s) ∷ m) =
      let rest = victims cutoff m in if is_idle cutoff s then (id, s.pid) ∷ rest else rest

  pub kill_all : Registry → List (ShellId × Option ℕ) → Daemon P → Daemon P
  kill_all reg [] d = d
  kill_all reg ((id, pid) ∷ vs) d = kill_all reg vs (cleanup_shell reg (terminate pid d) id none)

  -- The victims are collected under the lock of the map, which is free again before the first is
  -- killed: `seen` is the map at that time, and the daemon is the one that the kills meet. The
  -- subtraction from the clock is the source's saturating one.
  unfoldable pub kill_idle_detached :
      Registry → Os → (seen : Dict (ShellState P)) → Daemon P → ℕ → ℕ × Daemon P
  unfolding kill_all
  kill_idle_detached reg os seen d older_than_ms =
      let vs = victims (os.now_ms - older_than_ms) seen in (length vs, kill_all reg vs d)

  abbrev pub dead : Os → Dict (ShellState P) → List ShellId
  dead os [] = []
  dead os ((id, s) ∷ m) = let rest = dead os m in if is_dead os s.pid then id ∷ rest else rest

  pub cleanup_all : Registry → List ShellId → Daemon P → Daemon P
  cleanup_all reg [] d = d
  cleanup_all reg (id ∷ ids) d = cleanup_all reg ids (cleanup_shell reg d id none)

  unfoldable pub cleanup_dead_shells : Registry → Os → Daemon P → ℕ × Daemon P
  unfolding cleanup_all
  cleanup_dead_shells reg os d = let ids = dead os d.states in (length ids, cleanup_all reg ids d)

  module _ (vt : Vt100 P) (reg : Registry) (os : Os) where
    pub clear_detached : Dict (ShellState P) → Files → Dict (ShellState P) × Files
    clear_detached [] files = ([], files)
    clear_detached ((id, s) ∷ m) files =
        let s' = (if not (Shell.is_attached s) then Shell.clear_replay_buffers vt s else s) in
        let files' =
          (if not (Shell.is_attached s)
            then (persist_replay_files vt os reg.paths s' files).1
            else files) in
        let rest = clear_detached m files' in ((id, s') ∷ rest.0, rest.1)

    unfoldable pub prune_storage_caps : Daemon P → Daemon P
    unfolding clear_detached
    prune_storage_caps d =
        if leb os.runtime_size reg.config.limits.global_runtime_bytes
        then d
        else let (states, files) = clear_detached d.states d.files in
          record d { states = states; files = files }

    unfoldable pub run_gc : Daemon P → Daemon P
    unfolding cleanup_dead_shells prune_storage_caps
    run_gc d =
        let d' = prune_storage_caps (cleanup_dead_shells reg os d).1 in
        let live = keys d'.states in
        let paths = reg.paths in
        record d' {
          files = remove_orphans os paths.events live (codes "ring") (
              remove_orphans os paths.scrollback live (codes "ring") (
                remove_orphans os paths.snapshots live (codes "screen")
                  (remove_orphans os paths.states live (codes "json") d'.files)));
        }
