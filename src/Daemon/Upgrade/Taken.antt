-- ===== src/Daemon/Upgrade/Taken.antt =====
-- What the new process takes over of one shell among others.
use livesh.Prelude.{
  ◌≤◌, ◌≡◌, ◌≢◌, refl, ap, ◌∙◌, ℕ, none, some, Option, List, [], ◌∷◌, ◌++◌, arith, Bytes,
  eq_bytes_iff, eq_bytes_refl, Option-cases, inl, inr, if◌then◌else◌, trim, parse_bounded, ◌==◌,
}
use livesh.Prelude.Dict.{lookup, lookup-insert, remove, lookup-remove}
use livesh.Protocol.{ShellId}
use livesh.Protocol.Frame.{Codec}
use livesh.Config.{Config}
use livesh.Paths.{below_base}
use livesh.Limits.EventRing
use livesh.Terminal
use livesh.Terminal.{Vt100}
use livesh.Daemon.Os.{Os}
use livesh.Daemon.Shell.{ShellState}
use livesh.Daemon.Registry.{Registry, Daemon}
use livesh.Daemon.Files.{Files, StateMetadata, remove_shell_files, to_metadata}
use livesh.Daemon.Files.Apart.{
  Kind, metadata, temporary, pid_hint, snapshot, scrollback, events, file,
}
use livesh.Daemon.Files.Written.{IsNamed, file-other, lookup-persist_metadata}
use livesh.Daemon.Upgrade.{
  ShellHandoff, adopt, adopt_one, adopt_read, adopt_shells, or_dropped, close_fd, read_metadata,
  read_pid_hint,
}
use livesh.Daemon.Upgrade.Adopted.{readopted}
use livesh.Daemon.Upgrade.Saved.{AllOther, handoff_ids, registry, IsSaved}

remove_shell_files-other :
    (base : Bytes) (k : Kind) (id j : ShellId) (files : Files)
    → IsNamed id
    → IsNamed j
    → j ≢ id
    → lookup (file (below_base base) k id) (remove_shell_files (below_base base) j files)
      ≡ lookup (file (below_base base) k id) files
unfolding remove_shell_files
remove_shell_files-other base k id j files u v n =
    let p = file (below_base base) k id in
    let a = file (below_base base) metadata j in
    let b = file (below_base base) snapshot j in
    let c = file (below_base base) scrollback j in
    let d = file (below_base base) events j in
    let f = remove a files in
    let g = remove b f in
    let h = remove c g in
    ground (
      arith,
      file-other base metadata k j id v u n,
      file-other base snapshot k j id v u n,
      file-other base scrollback k j id v u n,
      file-other base events k j id v u n,
      lookup-remove a p files,
      lookup-remove b p f,
      lookup-remove c p g,
      lookup-remove d p h,
    )

module _ {P : Type 0} (vt : Vt100 P) (os : Os) (base : Bytes) (config : Config) (daemon_id : Bytes)
    (prefixes : List Bytes) (json : Codec StateMetadata) (print : StateMetadata → Bytes)
    (writes : (path : Bytes) → os.write_file path ≡ none)
    (prints : (m : StateMetadata) → json.serialize m ≡ some (print m))
    (dup : ℕ → Option Bytes) where
  abbrev pub reg : Registry
  reg = registry base config daemon_id prefixes json

  abbrev adopt_next : ShellHandoff → Daemon P → Daemon P
  adopt_next h d = or_dropped vt reg os (adopt_one vt reg os dup h d) h

  -- The shell that `adopt_read` makes.
  abbrev taken : StateMetadata → ShellHandoff → Daemon P → ShellState P
  taken m h d =
      adopt vt h.id m h.master_fd
        (if m.created_at_ms == 0 then none else read_pid_hint (below_base base) h.id d.files)
        (lookup (file (below_base base) snapshot h.id) d.files)
        (lookup (file (below_base base) scrollback h.id) d.files)
        (lookup (file (below_base base) events h.id) d.files) config.limits

  adopt_read-other :
      (k : Kind) (id : ShellId) (m : StateMetadata) (h : ShellHandoff) (d : Daemon P)
      → IsNamed id
      → IsNamed h.id
      → h.id ≢ id
      → (lookup id (adopt_read vt reg os m h d).states ≡ lookup id d.states)
        × (lookup (file (below_base base) k id) (adopt_read vt reg os m h d).files
            ≡ lookup (file (below_base base) k id) d.files)
  unfolding adopt_read adopt
  adopt_read-other k id m h d u v n =
      let t = taken m h d in
      let p = file (below_base base) k id in
      (
        ground (arith, eq_bytes_iff h.id id, n, lookup-insert h.id id t d.states),
        ground (
          arith,
          file-other base metadata k h.id id v u n,
          file-other base temporary k h.id id v u n,
          lookup-persist_metadata base vt os json daemon_id writes t v p d.files
              (prints (to_metadata daemon_id t)),
        ),
      )

  adopt_next-other :
      (k : Kind) (id : ShellId) (h : ShellHandoff) (d : Daemon P)
      → IsNamed id
      → IsNamed h.id
      → h.id ≢ id
      → (lookup id (adopt_next h d).states ≡ lookup id d.states)
        × (lookup (file (below_base base) k id) (adopt_next h d).files
            ≡ lookup (file (below_base base) k id) d.files)
  unfolding adopt_one or_dropped close_fd
  adopt_next-other k id h d u v n =
      elim (Option-cases (read_metadata json (below_base base) h.id d.files)) [
        | inl e ↦
            rw (or_dropped, adopt_one, e)
              (refl, remove_shell_files-other base k id h.id d.files u v n)
        | inr (m, e) ↦ elim (Option-cases (dup h.master_fd)) [
          | inl c ↦ rw (or_dropped, adopt_one, e, c) (adopt_read-other k id m h d u v n)
          | inr (w, c) ↦
              rw (or_dropped, adopt_one, e, c)
                (refl, remove_shell_files-other base k id h.id d.files u v n)
        ]
      ]

  -- Neither the entry of a shell nor its files are changed by others that are taken over.
  adopt_shells-states :
      (id : ShellId) (hs : List ShellHandoff) (d : Daemon P)
      → IsNamed id
      → AllOther id (handoff_ids hs)
      → lookup id (adopt_shells vt reg os dup hs d).states ≡ lookup id d.states
  unfolding adopt_shells
  adopt_shells-states id [] d u o = refl
  adopt_shells-states id (h ∷ hs) d u o =
      adopt_shells-states id hs (adopt_next h d) u o.1
      ∙ (adopt_next-other metadata id h d u o.0.0 o.0.1).0

  adopt_shells-append :
      (hs ts : List ShellHandoff) (d : Daemon P)
      → adopt_shells vt reg os dup (hs ++ ts) d
        ≡ adopt_shells vt reg os dup ts (adopt_shells vt reg os dup hs d)
  unfolding adopt_shells
  adopt_shells-append [] ts d = refl
  adopt_shells-append (h ∷ hs) ts d = adopt_shells-append hs ts (adopt_next h d)

  adopt_shells-files :
      (k : Kind) (id : ShellId) (hs : List ShellHandoff) (d : Daemon P)
      → IsNamed id
      → AllOther id (handoff_ids hs)
      → lookup (file (below_base base) k id) (adopt_shells vt reg os dup hs d).files
        ≡ lookup (file (below_base base) k id) d.files
  unfolding adopt_shells
  adopt_shells-files k id [] d u o = refl
  adopt_shells-files k id (h ∷ hs) d u o =
      adopt_shells-files k id hs (adopt_next h d) u o.1
      ∙ (adopt_next-other k id h d u o.0.0 o.0.1).1

  adopt_next-found :
      (h : ShellHandoff) (d : Daemon P) {m : StateMetadata}
      → read_metadata json (below_base base) h.id d.files ≡ some m
      → dup h.master_fd ≡ none
      → lookup h.id (adopt_next h d).states ≡ some (taken m h d)
  unfolding adopt_one or_dropped adopt_read
  adopt_next-found h d {m} e c =
      rw (or_dropped, adopt_one, e, c)
        (ground (arith, eq_bytes_refl h.id, lookup-insert h.id h.id (taken m h d) d.states))

  taken-eq :
      (s : ShellState P) (fd pid : ℕ) (hint : Bytes) (d : Daemon P)
      → s.pid ≡ some pid
      → parse_bounded 2147483647 (trim hint) ≡ some pid
      → 1 ≤ s.created_at_ms
      → lookup (file (below_base base) pid_hint s.id) d.files ≡ some hint
      → IsSaved vt base daemon_id print s d.files
      → taken (to_metadata daemon_id s) (record { id = s.id; master_fd = fd }) d
        ≡ readopted vt config.limits daemon_id s fd
  unfolding to_metadata read_pid_hint
  taken-eq s fd pid hint d has_pid parsed created hinted saved =
      let process : (if s.created_at_ms == 0
            then none
            else read_pid_hint (below_base base) s.id d.files)
          ≡ s.pid =
        ground (arith, hinted, parsed, has_pid, created) in
      rw (saved.1, saved.2, saved.3)
        (ap
          (λ (p : Option ℕ).
            adopt vt s.id (to_metadata daemon_id s) fd p
              (some (Terminal.raw_snapshot vt s.terminal)) (some s.scrollback.bytes)
              (some (EventRing.bytes s.events)) config.limits)
          process)

  -- A shell whose files are those that the old process writes.
  adopt_next-IsSaved :
      (s : ShellState P) (fd pid : ℕ) (hint : Bytes) (d : Daemon P)
      → json.deserialize (print (to_metadata daemon_id s) ++ (b'\n' ∷ []))
        ≡ some (to_metadata daemon_id s)
      → dup fd ≡ none
      → s.pid ≡ some pid
      → parse_bounded 2147483647 (trim hint) ≡ some pid
      → 1 ≤ s.created_at_ms
      → lookup (file (below_base base) pid_hint s.id) d.files ≡ some hint
      → IsSaved vt base daemon_id print s d.files
      → lookup s.id (adopt_next (record { id = s.id; master_fd = fd }) d).states
        ≡ some (readopted vt config.limits daemon_id s fd)
  unfolding read_metadata
  adopt_next-IsSaved s fd pid hint d reads dups has_pid parsed created hinted saved =
      let h : ShellHandoff = record { id = s.id; master_fd = fd } in
      let found : read_metadata json (below_base base) s.id d.files
          ≡ some (to_metadata daemon_id s) =
        ground (arith, saved.0, reads) in
      adopt_next-found h d {m = to_metadata daemon_id s} found dups
      ∙ ap some (taken-eq s fd pid hint d has_pid parsed created hinted saved)

  -- A shell that is handed over among others is taken over as the old process left it.
  pub adopt_shells-back :
      (hs ts : List ShellHandoff) (s : ShellState P) (fd pid : ℕ) (hint : Bytes) (d : Daemon P)
      → IsNamed s.id
      → AllOther s.id (handoff_ids hs)
      → AllOther s.id (handoff_ids ts)
      → json.deserialize (print (to_metadata daemon_id s) ++ (b'\n' ∷ []))
        ≡ some (to_metadata daemon_id s)
      → dup fd ≡ none
      → s.pid ≡ some pid
      → parse_bounded 2147483647 (trim hint) ≡ some pid
      → 1 ≤ s.created_at_ms
      → lookup (file (below_base base) pid_hint s.id) d.files ≡ some hint
      → IsSaved vt base daemon_id print s d.files
      → lookup s.id
          (adopt_shells vt reg os dup (hs ++ (record { id = s.id; master_fd = fd } ∷ ts)) d).states
        ≡ some (readopted vt config.limits daemon_id s fd)
  unfolding adopt_shells
  adopt_shells-back hs ts s fd pid hint d u b o reads dups has_pid parsed created hinted saved =
      let h : ShellHandoff = record { id = s.id; master_fd = fd } in
      let d' = adopt_shells vt reg os dup hs d in
      let saved' : IsSaved vt base daemon_id print s d'.files = (
        adopt_shells-files metadata s.id hs d u b ∙ saved.0,
        adopt_shells-files snapshot s.id hs d u b ∙ saved.1,
        adopt_shells-files scrollback s.id hs d u b ∙ saved.2,
        adopt_shells-files events s.id hs d u b ∙ saved.3,
      ) in
      let hinted' = adopt_shells-files pid_hint s.id hs d u b ∙ hinted in
      rw (adopt_shells-append hs (h ∷ ts) d) (
        adopt_shells-states s.id ts (adopt_next h d') u o
        ∙ adopt_next-IsSaved s fd pid hint d' reads dups has_pid parsed created hinted' saved')
