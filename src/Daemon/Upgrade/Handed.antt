-- ===== src/Daemon/Upgrade/Handed.antt =====
-- What `perform_upgrade` hands over of one shell among others.
use livesh.Prelude.{
  ◌≡◌, ◌≢◌, refl, sym, ap, ◌∙◌, ℕ, none, some, Option, List, [], ◌∷◌, ◌++◌, arith, Bytes, eq_bytes,
  eq_bytes_refl, Option-cases, inl, inr, false,
}
use livesh.Prelude.Dict.{lookup, lookup-insert}
use livesh.Protocol.{ShellId}
use livesh.Paths.{below_base}
use livesh.Daemon.Os.{Os}
use livesh.Daemon.Shell.{ShellState}
use livesh.Daemon.Registry.{Registry}
use livesh.Daemon.Files.{Files, StateMetadata}
use livesh.Daemon.Files.Apart.{Kind, pid_hint, file}
use livesh.Daemon.Files.Written.{IsNamed, file-other, file-kind}
use livesh.Daemon.Upgrade.{ShellHandoff, handoffs, write_pid_hint}
use livesh.Daemon.Upgrade.Saved.{AllOther, ids, handoff_ids, registry}
use livesh.Protocol.Frame.{Codec}
use livesh.Config.{Config}
use livesh.Terminal.{Vt100}

module _ {P : Type 0} (vt : Vt100 P) (os : Os) (base : Bytes) (config : Config) (daemon_id : Bytes)
    (prefixes : List Bytes) (json : Codec StateMetadata)
    (writes : (path : Bytes) → os.write_file path ≡ none) (to_string : ℕ → Bytes)
    (clear : ℕ → Option Bytes) where
  abbrev pub reg : Registry
  reg = registry base config daemon_id prefixes json

  abbrev pub hand : List (ShellState P) → Files → List ShellHandoff × Files
  hand ss files = handoffs vt reg os to_string clear ss files

  abbrev hinted : ShellState P → Files → Files
  unfolding write_pid_hint
  hinted s files = write_pid_hint vt reg os to_string s.id s.pid files

  hinted-other :
      (path : Bytes) (s : ShellState P) (files : Files)
      → eq_bytes (file (below_base base) pid_hint s.id) path ≡ false
      → lookup path (hinted s files) ≡ lookup path files
  unfolding hinted write_pid_hint
  hinted-other path s files h = elim (Option-cases s.pid) [
    | inl e ↦ ground (arith, e)
    | inr (pid, e) ↦
        let p = file (below_base base) pid_hint s.id in
        ground (arith, e, h, writes p, lookup-insert p path (to_string pid) files)
  ]

  -- Nothing is changed of the files of a shell that is not in the list.
  handoffs-other :
      (k : Kind) (id : ShellId) (ss : List (ShellState P)) (files : Files)
      → IsNamed id
      → AllOther id (ids ss)
      → lookup (file (below_base base) k id) (hand ss files).1
        ≡ lookup (file (below_base base) k id) files
  unfolding handoffs hinted
  handoffs-other k id [] files u o = refl
  handoffs-other k id (s ∷ ss) files u o =
      let apart = file-other base pid_hint k s.id id o.0.0 u o.0.1 in
      ground (
        arith,
        handoffs-other k id ss files u o.1,
        handoffs-other k id ss (hinted s files) u o.1,
        hinted-other (file (below_base base) k id) s files apart,
      )

  handoff_ids-AllOther :
      (id : ShellId) (ss : List (ShellState P)) (files : Files)
      → AllOther id (ids ss)
      → AllOther id (handoff_ids (hand ss files).0)
  unfolding handoffs
  handoff_ids-AllOther id [] files o = tt
  handoff_ids-AllOther id (s ∷ ss) files o = elim (Option-cases s.master) [
    | inl e ↦ rw (handoffs, e) (handoff_ids-AllOther id ss files o.1)
    | inr (fd, e) ↦ elim (Option-cases (clear fd)) [
      | inl c ↦ rw (handoffs, e, c) (o.0, handoff_ids-AllOther id ss (hinted s files) o.1)
      | inr (m, c) ↦ rw (handoffs, e, c) (handoff_ids-AllOther id ss files o.1)
    ]
  ]

  module _ (s : ShellState P) (named : IsNamed s.id) {fd pid : ℕ} (is_open : s.master ≡ some fd)
      (cleared : clear fd ≡ none) (has_pid : s.pid ≡ some pid) where
    hinted_self :
        (files : Files)
        → lookup (file (below_base base) pid_hint s.id) (hinted s files) ≡ some (to_string pid)
    unfolding hinted write_pid_hint
    hinted_self files =
        let p = file (below_base base) pid_hint s.id in
        ground (arith, has_pid, writes p, eq_bytes_refl p, lookup-insert p p (to_string pid) files)

    handoffs-cons :
        (after : List (ShellState P)) (files : Files)
        → hand (s ∷ after) files ≡ (
          record { id = s.id; master_fd = fd } ∷ (hand after (hinted s files)).0,
          (hand after (hinted s files)).1,
        )
    unfolding handoffs hinted
    handoffs-cons after files = rw (handoffs, is_open, cleared) refl

    -- The hint holds the process of the shell.
    pub handoffs-pid_hint :
        (before after : List (ShellState P)) (files : Files)
        → AllOther s.id (ids after)
        → lookup (file (below_base base) pid_hint s.id) (hand (before ++ (s ∷ after)) files).1
          ≡ some (to_string pid)
    unfolding handoffs
    handoffs-pid_hint [] after files o =
        rw (handoffs-cons after files)
          (handoffs-other pid_hint s.id after (hinted s files) named o ∙ hinted_self files)
    handoffs-pid_hint (t ∷ before) after files o = ground (
      arith,
      handoffs-pid_hint before after files o,
      handoffs-pid_hint before after (hinted t files) o,
    )

    -- The other files of the shell stay.
    pub handoffs-lookup :
        (k : Kind) (before after : List (ShellState P)) (files : Files)
        → k ≢ pid_hint
        → AllOther s.id (ids before)
        → AllOther s.id (ids after)
        → lookup (file (below_base base) k s.id) (hand (before ++ (s ∷ after)) files).1
          ≡ lookup (file (below_base base) k s.id) files
    unfolding handoffs
    handoffs-lookup k [] after files n b o = rw (handoffs-cons after files) (
        handoffs-other k s.id after (hinted s files) named o
        ∙ hinted-other (file (below_base base) k s.id) s files
            (file-kind base pid_hint k s.id named (λ e. n (sym e))))
    handoffs-lookup k (t ∷ before) after files n b o =
        let apart = file-other base pid_hint k t.id s.id b.0.0 named b.0.1 in
        ground (
          arith,
          handoffs-lookup k before after files n b.1 o,
          handoffs-lookup k before after (hinted t files) n b.1 o,
          hinted-other (file (below_base base) k s.id) t files apart,
        )

    -- The terminal of the shell is handed over, once.
    pub handoffs-split :
        (before after : List (ShellState P)) (files : Files)
        → AllOther s.id (ids before)
        → AllOther s.id (ids after)
        → (hs : List ShellHandoff) × (ts : List ShellHandoff) × ((hand
              (before ++ (s ∷ after))
              files).0
            ≡ hs ++ (record { id = s.id; master_fd = fd } ∷ ts))
          × AllOther s.id (handoff_ids hs)
          × AllOther s.id (handoff_ids ts)
    unfolding handoffs
    handoffs-split [] after files b o = (
      [],
      (hand after (hinted s files)).0,
      ap (λ (r : List ShellHandoff × Files). r.0) (handoffs-cons after files),
      tt,
      handoff_ids-AllOther s.id after (hinted s files) o,
    )
    handoffs-split (t ∷ before) after files b o =
        let (hs, ts, e, x, y) = handoffs-split before after files b.1 o in
        let (hs', ts', e', x', y') = handoffs-split before after (hinted t files) b.1 o in
        elim (Option-cases t.master) [
          | inl m ↦ (hs, ts, ground (arith, m, e), x, y)
          | inr (n, m) ↦ elim (Option-cases (clear n)) [
            | inl c ↦ (
              record { id = t.id; master_fd = n } ∷ hs',
              ts',
              ground (arith, m, c, e'),
              (b.0, x'),
              y',
            )
            | inr (w, c) ↦ (hs, ts, ground (arith, m, c, e), x, y)
          ]
        ]
