-- ===== src/Daemon/Upgrade/Saved.antt =====
-- What the old process leaves for the new one: the files of a shell, whatever other shells there are.
use livesh.Prelude.{
  ◌≡◌, ◌≢◌, refl, ◌∙◌, none, some, List, [], ◌∷◌, ◌++◌, arith, Bytes, eq_bytes_refl,
}
use livesh.Prelude.Dict.{lookup}
use livesh.Protocol.{ShellId}
use livesh.Protocol.Frame.{Codec}
use livesh.Config.{Config}
use livesh.Limits.EventRing
use livesh.Paths.{below_base}
use livesh.Terminal
use livesh.Terminal.{Vt100}
use livesh.Daemon.Os.{Os}
use livesh.Daemon.Shell.{ShellState}
use livesh.Daemon.Registry.{Registry}
use livesh.Daemon.Files.{Files, StateMetadata, persist_metadata, persist_replay_files, to_metadata}
use livesh.Daemon.Files.Apart.{Kind, metadata, temporary, snapshot, scrollback, events, file}
use livesh.Daemon.Files.Written.{
  IsNamed, file-other, file-kind, lookup-persist_metadata, lookup-persist_replay_files,
}
use livesh.Daemon.Upgrade.{ShellHandoff, flush_all}

-- Ids that name files, and none of them is the first argument.
abbrev pub AllOther : ShellId → List ShellId → Type 0
AllOther id [] = Unit
AllOther id (j ∷ js) = (IsNamed j × (j ≢ id)) × AllOther id js

abbrev pub ids : {P : Type 0} → List (ShellState P) → List ShellId
ids [] = []
ids (s ∷ ss) = s.id ∷ ids ss

abbrev pub handoff_ids : List ShellHandoff → List ShellId
handoff_ids [] = []
handoff_ids (h ∷ hs) = h.id ∷ handoff_ids hs

abbrev pub registry : Bytes → Config → Bytes → List Bytes → Codec StateMetadata → Registry
registry base config daemon_id prefixes json = record {
  paths = below_base base;
  config = config;
  daemon_id = daemon_id;
  strip_prefix_env = prefixes;
  json = json;
}

-- The files of a shell are those that `perform_upgrade` writes.
abbrev pub IsSaved :
    {P : Type 0} → Vt100 P → Bytes → Bytes → (StateMetadata → Bytes) → ShellState P → Files → Type 0
IsSaved vt base daemon_id print s files =
    (lookup (file (below_base base) metadata s.id) files
      ≡ some (print (to_metadata daemon_id s) ++ (b'\n' ∷ [])))
    × (lookup (file (below_base base) snapshot s.id) files
        ≡ some (Terminal.raw_snapshot vt s.terminal))
    × (lookup (file (below_base base) scrollback s.id) files ≡ some s.scrollback.bytes)
    × (lookup (file (below_base base) events s.id) files ≡ some (EventRing.bytes s.events))

module _ {P : Type 0} (vt : Vt100 P) (os : Os) (base : Bytes) (config : Config) (daemon_id : Bytes)
    (prefixes : List Bytes) (json : Codec StateMetadata) (print : StateMetadata → Bytes)
    (writes : (path : Bytes) → os.write_file path ≡ none)
    (prints : (m : StateMetadata) → json.serialize m ≡ some (print m)) where
  abbrev path_of : Kind → ShellId → Bytes
  path_of k id = file (below_base base) k id

  abbrev flush : ShellState P → Files → Files
  flush s files =
      (persist_replay_files vt os (below_base base) s
        (persist_metadata os json (below_base base) daemon_id s files).1).1

  flush-other :
      (k : Kind) (id : ShellId) (s : ShellState P) (files : Files)
      → IsNamed id
      → IsNamed s.id
      → s.id ≢ id
      → lookup (path_of k id) (flush s files) ≡ lookup (path_of k id) files
  flush-other k id s files u v n =
      let files' = (persist_metadata os json (below_base base) daemon_id s files).1 in
      ground (
        arith,
        file-other base events k s.id id v u n,
        file-other base scrollback k s.id id v u n,
        file-other base snapshot k s.id id v u n,
        file-other base metadata k s.id id v u n,
        file-other base temporary k s.id id v u n,
        lookup-persist_replay_files base vt os json daemon_id writes s v (path_of k id) files',
        lookup-persist_metadata base vt os json daemon_id writes s v (path_of k id) files
            (prints (to_metadata daemon_id s)),
      )

  flush-IsSaved :
      (s : ShellState P) (files : Files)
      → IsNamed s.id
      → IsSaved vt base daemon_id print s (flush s files)
  flush-IsSaved s files v =
      let files' = (persist_metadata os json (below_base base) daemon_id s files).1 in
      let meta =
        lookup-persist_metadata base vt os json daemon_id writes s v (path_of metadata s.id) files
          (prints (to_metadata daemon_id s)) in
      (
        ground (
          arith,
          lookup-persist_replay_files base vt os json daemon_id writes s v (path_of metadata s.id)
              files',
          meta,
          eq_bytes_refl (path_of metadata s.id),
          file-kind base events metadata s.id v (λ e. cc),
          file-kind base scrollback metadata s.id v (λ e. cc),
          file-kind base snapshot metadata s.id v (λ e. cc),
        ),
        ground (
          arith,
          lookup-persist_replay_files base vt os json daemon_id writes s v (path_of snapshot s.id)
              files',
          eq_bytes_refl (path_of snapshot s.id),
          file-kind base events snapshot s.id v (λ e. cc),
          file-kind base scrollback snapshot s.id v (λ e. cc),
        ),
        ground (
          arith,
          lookup-persist_replay_files base vt os json daemon_id writes s v (path_of scrollback s.id)
              files',
          eq_bytes_refl (path_of scrollback s.id),
          file-kind base events scrollback s.id v (λ e. cc),
        ),
        ground (
          arith,
          lookup-persist_replay_files base vt os json daemon_id writes s v (path_of events s.id)
              files',
          eq_bytes_refl (path_of events s.id),
        ),
      )

  -- Nothing is changed of the files of a shell that is not in the list.
  flush_all-other :
      (k : Kind) (id : ShellId) (ss : List (ShellState P)) (files : Files)
      → IsNamed id
      → AllOther id (ids ss)
      → lookup
          (path_of k id)
          (flush_all vt (registry base config daemon_id prefixes json) os ss files)
        ≡ lookup (path_of k id) files
  unfolding flush_all
  flush_all-other k id [] files u o = refl
  flush_all-other k id (s ∷ ss) files u o =
      flush_all-other k id ss (flush s files) u o.1 ∙ flush-other k id s files u o.0.0 o.0.1

  pub flush_all-IsSaved :
      (before : List (ShellState P)) (s : ShellState P) (after : List (ShellState P))
      → (files : Files) → IsNamed s.id
      → AllOther s.id (ids after)
      → IsSaved vt base daemon_id print s (
          flush_all vt
            (registry base config daemon_id prefixes json)
            os
            (before ++ (s ∷ after))
            files)
  unfolding flush_all
  flush_all-IsSaved [] s after files u o =
      let saved = flush-IsSaved s files u in
      (
        flush_all-other metadata s.id after (flush s files) u o ∙ saved.0,
        flush_all-other snapshot s.id after (flush s files) u o ∙ saved.1,
        flush_all-other scrollback s.id after (flush s files) u o ∙ saved.2,
        flush_all-other events s.id after (flush s files) u o ∙ saved.3,
      )
  flush_all-IsSaved (t ∷ before) s after files u o =
      flush_all-IsSaved before s after (flush t files) u o
