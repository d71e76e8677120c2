-- ===== src/Daemon/Upkeep/Sound.antt =====
-- The sweeps keep the registry's invariant.
use livesh.Prelude.{
  ℕ, suc, ◌-◌, ◌≡◌, refl, ap, Option, none, List, [], ◌∷◌, arith, length, not, Bool-cases, inl, inr,
  leb, eq_bytes,
}
use livesh.Prelude.Dict.{Dict, lookup, AllEntries, IsDistinct}
use livesh.Protocol.{ShellId}
use livesh.Limits.{Limits}
use livesh.Terminal.{Vt100}
use livesh.Daemon.Os.{Os}
use livesh.Daemon.Shell
use livesh.Daemon.Shell.{ShellState}
use livesh.Daemon.Shell.Live.{IsLive, clear-IsLive}
use livesh.Daemon.Files.{Files}
use livesh.Daemon.Registry.{Registry, Daemon, terminate}
use livesh.Daemon.Registry.Sound.{IsSound, cleanup_shell-IsSound, terminate-IsSound}
use livesh.Daemon.Upkeep.{
  victims, dead, kill_all, kill_idle_detached, cleanup_all, cleanup_dead_shells, clear_detached,
  prune_storage_caps, run_gc,
}

module _ {P : Type 0} {limits : Limits} {n : ℕ} (reg : Registry) where
  pub kill_all-IsSound :
      (vs : List (ShellId × Option ℕ)) (d : Daemon P)
      → IsSound limits n d.states
      → IsSound limits n (kill_all reg vs d).states
  unfolding kill_all
  kill_all-IsSound [] d v = v
  kill_all-IsSound ((id, pid) ∷ vs) d v =
      kill_all-IsSound vs _
        (cleanup_shell-IsSound reg (terminate pid d) id none (terminate-IsSound pid d v))

  pub kill_idle_detached-IsSound :
      (os : Os) (seen : Dict (ShellState P)) (d : Daemon P) (older_than_ms : ℕ)
      → IsSound limits n d.states
      → IsSound limits n (kill_idle_detached reg os seen d older_than_ms).1.states
  unfolding kill_idle_detached
  kill_idle_detached-IsSound os seen d older_than_ms v =
      kill_all-IsSound (victims (os.now_ms - older_than_ms) seen) d v

  cleanup_all-IsSound :
      (ids : List ShellId) (d : Daemon P)
      → IsSound limits n d.states
      → IsSound limits n (cleanup_all reg ids d).states
  unfolding cleanup_all
  cleanup_all-IsSound [] d v = v
  cleanup_all-IsSound (id ∷ ids) d v =
      cleanup_all-IsSound ids _ (cleanup_shell-IsSound reg d id none v)

  pub cleanup_dead_shells-IsSound :
      (os : Os) (d : Daemon P)
      → IsSound limits n d.states
      → IsSound limits n (cleanup_dead_shells reg os d).1.states
  unfolding cleanup_dead_shells
  cleanup_dead_shells-IsSound os d v = cleanup_all-IsSound (dead os d.states) d v

module _ {P : Type 0} (vt : Vt100 P) (reg : Registry) (os : Os) where
  lookup-clear_detached :
      (id : ShellId) (m : Dict (ShellState P)) (files : Files)
      → lookup id m ≡ none
      → lookup id (clear_detached vt reg os m files).0 ≡ none
  unfolding clear_detached lookup
  lookup-clear_detached id [] files h = refl
  lookup-clear_detached id ((j, s) ∷ m) files h = elim (Bool-cases (eq_bytes j id)) [
    | inl e ↦ absurd (ground arith)
    | inr e ↦ rw e (lookup-clear_detached id m _ (ground arith))
  ]

  length-clear_detached :
      (m : Dict (ShellState P)) (files : Files)
      → length (clear_detached vt reg os m files).0 ≡ length m
  unfolding clear_detached
  length-clear_detached [] files = refl
  length-clear_detached ((id, s) ∷ m) files = ap suc (length-clear_detached m _)

  clear_detached-IsDistinct :
      (m : Dict (ShellState P)) (files : Files)
      → IsDistinct m
      → IsDistinct (clear_detached vt reg os m files).0
  unfolding clear_detached
  clear_detached-IsDistinct [] files u = tt
  clear_detached-IsDistinct ((id, s) ∷ m) files u =
      (lookup-clear_detached id m _ u.0, clear_detached-IsDistinct m _ u.1)

  clear_detached-AllLive :
      (limits : Limits) (m : Dict (ShellState P)) (files : Files)
      → AllEntries (IsLive limits) m
      → AllEntries (IsLive limits) (clear_detached vt reg os m files).0
  unfolding clear_detached
  clear_detached-AllLive limits [] files a = tt
  clear_detached-AllLive limits ((id, s) ∷ m) files a = (
    elim (Bool-cases (not (Shell.is_attached s))) [
      | inl e ↦ rw e (clear-IsLive vt a.0)
      | inr e ↦ rw e a.0
    ],
    clear_detached-AllLive limits m _ a.1,
  )

  pub prune_storage_caps-IsSound :
      {limits : Limits} {n : ℕ} (d : Daemon P)
      → IsSound limits n d.states
      → IsSound limits n (prune_storage_caps vt reg os d).states
  unfolding prune_storage_caps
  prune_storage_caps-IsSound {limits} d v =
      elim (Bool-cases (leb os.runtime_size reg.config.limits.global_runtime_bytes)) [
        | inl e ↦ rw (e, prune_storage_caps) v
        | inr e ↦
            rw (e, prune_storage_caps)
              record {
                counted = rw (length-clear_detached d.states d.files) v.counted;
                distinct = clear_detached-IsDistinct d.states d.files v.distinct;
                live = clear_detached-AllLive limits d.states d.files v.live;
              }
      ]

  pub run_gc-IsSound :
      {limits : Limits} {n : ℕ} (d : Daemon P)
      → IsSound limits n d.states
      → IsSound limits n (run_gc vt reg os d).states
  unfolding run_gc
  run_gc-IsSound d v = prune_storage_caps-IsSound _ (cleanup_dead_shells-IsSound reg os d v)
