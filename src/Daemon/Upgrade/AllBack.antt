-- ===== src/Daemon/Upgrade/AllBack.antt =====
-- The whole registry over an upgrade.
use livesh.Prelude.{
  ◌≤◌, ◌≡◌, ◌≢◌, sym, ap, ◌∙◌, ℕ, none, some, Option, List, [], ◌∷◌, ◌++◌, arith, Bytes, eq_bytes,
  eq_bytes_iff, Bool-cases, inl, inr, trim, parse_bounded, subst,
}
use livesh.Prelude.Dict.{Dict, lookup, values, AllEntries, IsDistinct}
use livesh.Protocol.{ShellId}
use livesh.Protocol.Frame.{Codec}
use livesh.Limits.{Limits}
use livesh.Config.{Config}
use livesh.Paths.{below_base}
use livesh.Terminal.{Vt100}
use livesh.Daemon.Os.{Os}
use livesh.Daemon.Shell.{ShellState}
use livesh.Daemon.Shell.Live.{IsLive}
use livesh.Daemon.Registry.{Registry, Daemon}
use livesh.Daemon.Registry.Sound.{IsSound}
use livesh.Daemon.Files.{Files, StateMetadata, to_metadata}
use livesh.Daemon.Files.Apart.{Kind, metadata, pid_hint, snapshot, scrollback, events, file}
use livesh.Daemon.Files.Written.{IsNamed}
use livesh.Daemon.Upgrade.{ShellHandoff, adopt_shells, flush_all, handoffs}
use livesh.Daemon.Upgrade.Adopted.{readopted}
use livesh.Daemon.Upgrade.Saved.{AllOther, ids, registry, IsSaved, flush_all-IsSaved}
use livesh.Daemon.Upgrade.Handed.{handoffs-pid_hint, handoffs-lookup, handoffs-split}
use livesh.Daemon.Upgrade.Taken.{adopt_shells-back}

-- A shell's place among the shells of a registry.
AllOther-values :
    {P : Type 0} (limits : Limits) (id : ShellId) (m : Dict (ShellState P))
    → AllEntries (λ j t. IsNamed j) m
    → AllEntries (IsLive limits) m
    → lookup id m ≡ none
    → AllOther id (ids (values m))
unfolding lookup
AllOther-values limits id [] n l h = tt
AllOther-values limits id ((j, t) ∷ m) n l h =
    let same = (l.0).same_id in
    let other : j ≢ id = λ e. absurd (ground (arith, h, (eq_bytes_iff j id).1 e)) in
    (
      (subst IsNamed (sym same) n.0, λ e. other (sym same ∙ e)),
      AllOther-values limits id m n.1 l.1 (ground (arith, h)),
    )

values-split :
    {P : Type 0} (limits : Limits) (id : ShellId) {s : ShellState P} (m : Dict (ShellState P))
    → IsDistinct m
    → AllEntries (λ j t. IsNamed j) m
    → AllEntries (IsLive limits) m
    → lookup id m ≡ some s
    → (before : List (ShellState P)) × (after : List (ShellState P)) × (values m
        ≡ before ++ (s ∷ after))
      × (s.id ≡ id)
      × IsNamed id
      × AllOther id (ids before)
      × AllOther id (ids after)
unfolding lookup
values-split limits id [] u n l h = absurd (ground (arith, h))
values-split {P} limits id {s} ((j, t) ∷ m) u n l h = elim (Bool-cases (eq_bytes j id)) [
  | inl e ↦
      let same : j ≡ id = (eq_bytes_iff j id).0 e in
      let here : t ≡ s = ground (arith, h, e) in
      (
        [],
        values m,
        ap (λ (x : ShellState P). x ∷ values m) here,
        ap (λ (x : ShellState P). x.id) (sym here) ∙ (l.0).same_id ∙ same,
        subst IsNamed same n.0,
        tt,
        AllOther-values limits id m n.1 l.1 (subst (λ i. lookup i m ≡ none) same u.0),
      )
  | inr e ↦
      let (before, after, split, same, named, b, o) =
        values-split limits id {s = s} m u.1 n.1 l.1 (ground (arith, h, e)) in
      let own = (l.0).same_id in
      (
        t ∷ before,
        after,
        ap (λ (ts : List (ShellState P)). t ∷ ts) split,
        same,
        named,
        (
          (
            subst IsNamed (sym own) n.0,
            λ k. absurd (ground (arith, e, (eq_bytes_iff j id).1 (sym own ∙ k))),
          ),
          b,
        ),
        o,
      )
]

abbrev pub WritesAll : Os → Type 0
WritesAll os = (path : Bytes) → os.write_file path ≡ none

-- All metadata can be written as JSON.
abbrev pub PrintsAll : Codec StateMetadata → (StateMetadata → Bytes) → Type 0
PrintsAll json print = (m : StateMetadata) → json.serialize m ≡ some (print m)

-- What the old process hands over, and the files that it leaves.
abbrev pub handed :
    {P : Type 0}
    → Vt100 P
    → Registry
    → Os
    → (ℕ → Bytes)
    → (ℕ → Option Bytes)
    → List (ShellState P)
    → Files
    → List ShellHandoff × Files
handed vt reg os to_string clear ss files =
    handoffs vt reg os to_string clear ss (flush_all vt reg os ss files)

module _ {P : Type 0} (vt : Vt100 P) (base : Bytes) (config : Config) (prefixes : List Bytes)
    (daemon_id : Bytes) (json : Codec StateMetadata) (print : StateMetadata → Bytes) (os : Os)
    (to_string : ℕ → Bytes) (clear : ℕ → Option Bytes) (files : Files) (config' : Config)
    (prefixes' : List Bytes) (os' : Os) (dup : ℕ → Option Bytes) (w : WritesAll os)
    (w' : WritesAll os') (r : PrintsAll json print) where
  abbrev pub old : List (ShellState P) → List ShellHandoff × Files
  old ss = handed vt (registry base config daemon_id prefixes json) os to_string clear ss files

  -- One shell in its place, over any files of the new process that are those of the old one where its
  -- own are.
  adopt_shells-listed :
      (before : List (ShellState P)) (s : ShellState P) (after : List (ShellState P))
      → {fd pid : ℕ} (d : Daemon P) → IsNamed s.id
      → AllOther s.id (ids before)
      → AllOther s.id (ids after)
      → s.master ≡ some fd
      → clear fd ≡ none
      → dup fd ≡ none
      → s.pid ≡ some pid
      → parse_bounded 2147483647 (trim (to_string pid)) ≡ some pid
      → json.deserialize (print (to_metadata daemon_id s) ++ (b'\n' ∷ []))
        ≡ some (to_metadata daemon_id s)
      → 1 ≤ s.created_at_ms
      → ((k : Kind)
          → lookup (file (below_base base) k s.id) d.files
            ≡ lookup (file (below_base base) k s.id) (old (before ++ (s ∷ after))).1)
      → lookup s.id
          (adopt_shells vt
            (registry base config' daemon_id prefixes' json)
            os'
            dup
            (old (before ++ (s ∷ after))).0
            d).states
        ≡ some (readopted vt config'.limits daemon_id s fd)
  adopt_shells-listed before s after {fd} {pid} d named b o opened cleared dups has_pid parsed reads
        created same =
      let ss = before ++ (s ∷ after) in
      let reg = registry base config daemon_id prefixes json in
      let flushed = flush_all vt reg os ss files in
      let wrote =
        flush_all-IsSaved vt os base config daemon_id prefixes json print w r before s after files
          named o in
      let saved : IsSaved vt base daemon_id print s d.files = (
        same metadata
            ∙ handoffs-lookup vt os base config daemon_id prefixes json w to_string clear s named
                opened cleared has_pid metadata before after flushed (λ e. cc) b o
            ∙ wrote.0,
        same snapshot
            ∙ handoffs-lookup vt os base config daemon_id prefixes json w to_string clear s named
                opened cleared has_pid snapshot before after flushed (λ e. cc) b o
            ∙ wrote.1,
        same scrollback
            ∙ handoffs-lookup vt os base config daemon_id prefixes json w to_string clear s named
                opened cleared has_pid scrollback before after flushed (λ e. cc) b o
            ∙ wrote.2,
        same events
            ∙ handoffs-lookup vt os base config daemon_id prefixes json w to_string clear s named
                opened cleared has_pid events before after flushed (λ e. cc) b o
            ∙ wrote.3,
      ) in
      let hinted =
        same pid_hint
        ∙ handoffs-pid_hint vt os base config daemon_id prefixes json w to_string clear s named
            opened cleared has_pid before after flushed o in
      let (hs, ts, split, x, y) =
        handoffs-split vt os base config daemon_id prefixes json w to_string clear s named opened
          cleared has_pid before after flushed b o in
      rw split (
        adopt_shells-back vt os' base config' daemon_id prefixes' json print w' r dup hs ts s fd pid
          (to_string pid) d named x y reads dups has_pid parsed created hinted saved)

  -- One shell of the registry.
  pub adopt_shells-handed :
      (m : Dict (ShellState P)) (id : ShellId) {max : ℕ} {s : ShellState P} {fd pid : ℕ}
      (d : Daemon P)
      → IsSound config.limits max m
      → AllEntries (λ j t. IsNamed j) m
      → lookup id m ≡ some s
      → s.master ≡ some fd
      → clear fd ≡ none
      → dup fd ≡ none
      → s.pid ≡ some pid
      → parse_bounded 2147483647 (trim (to_string pid)) ≡ some pid
      → json.deserialize (print (to_metadata daemon_id s) ++ (b'\n' ∷ []))
        ≡ some (to_metadata daemon_id s)
      → 1 ≤ s.created_at_ms
      → ((k : Kind)
          → lookup (file (below_base base) k id) d.files
            ≡ lookup (file (below_base base) k id) (old (values m)).1)
      → lookup id
          (adopt_shells vt
            (registry base config' daemon_id prefixes' json)
            os'
            dup
            (old (values m)).0
            d).states
        ≡ some (readopted vt config'.limits daemon_id s fd)
  adopt_shells-handed m id {max} {s} {fd} {pid} d v n h opened cleared dups has_pid parsed reads
        created same =
      let (before, after, split, own, named, b, o) =
        values-split config.limits id {s = s} m v.distinct n v.live h in
      let after_split : ((k : Kind)
          → lookup (file (below_base base) k s.id) d.files
            ≡ lookup (file (below_base base) k s.id) (old (before ++ (s ∷ after))).1) =
        λ k.
          subst
            (λ i.
              lookup (file (below_base base) k i) d.files
              ≡ lookup (file (below_base base) k i) (old (before ++ (s ∷ after))).1)
            (sym own)
            (subst
              (λ ss.
                lookup (file (below_base base) k id) d.files
                ≡ lookup (file (below_base base) k id) (old ss).1)
              split (same k)) in
      let back =
        adopt_shells-listed before s after {fd = fd} {pid = pid} d (subst IsNamed (sym own) named)
          (subst (λ i. AllOther i (ids before)) (sym own) b)
          (subst (λ i. AllOther i (ids after)) (sym own) o) opened cleared dups has_pid parsed reads
          created after_split in
      rw split (
        subst
          (λ i.
            lookup i
              (adopt_shells vt (registry base config' daemon_id prefixes' json) os' dup
                (old (before ++ (s ∷ after))).0 d).states
            ≡ some (readopted vt config'.limits daemon_id s fd))
          own back)
