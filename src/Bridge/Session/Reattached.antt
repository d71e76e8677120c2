-- ===== src/Bridge/Session/Reattached.antt =====
-- A client that is attached again and again: what it paints, and how it ends.
use livesh.Prelude.{
  ℕ, suc, ◌≡◌, refl, sym, ap, ◌∙◌, none, some, eq_bytes_refl, List, [], ◌∷◌, ◌++◌, append_assoc,
  append-nil, Bytes, map,
}
use livesh.Prelude.Result.{ok, err}
use livesh.Protocol.{AttachId, output, cwd_changed}
use livesh.Daemon.Shell.{Sent}
use livesh.Bridge.KeyboardReset.{observe_output}
use livesh.Bridge.OutputLoop.{Screen, disconnected, output_loop, handle, reconnect}
use livesh.Bridge.OutputLoop.Painted.{deliver}
use livesh.Bridge.Session.{
  Target, daemon_gone, Attempts, real_shell, painted_with, bridge_loop, bridge_snapshot, finish,
}

-- What a client is told on an attach: an output of the shell, or its directory.
pub data Told : Type 0 where
  wrote : (seq : ℕ) → Bytes → Told
  moved : (cwd : Bytes) → Told

abbrev pub told_messages : ℕ → AttachId → List Told → List Sent
told_messages tx attach_id [] = []
told_messages tx attach_id (wrote seq bytes ∷ ts) =
    (tx, output attach_id seq bytes) ∷ told_messages tx attach_id ts
told_messages tx attach_id (moved cwd ∷ ts) =
    (tx, cwd_changed attach_id cwd) ∷ told_messages tx attach_id ts

abbrev pub told_bytes : List Told → Bytes
told_bytes [] = []
told_bytes (wrote seq bytes ∷ ts) = bytes ++ told_bytes ts
told_bytes (moved cwd ∷ ts) = told_bytes ts

output_loop-told :
    (clock : ℕ → ℕ) (i tx : ℕ) (attach_id : AttachId) (ts : List Told) (s : Screen)
    → let r = output_loop attach_id s (deliver clock i (told_messages tx attach_id ts)) in
      (r.0 ≡ disconnected) × (r.1.painted ≡ s.painted ++ told_bytes ts)
unfolding output_loop handle
output_loop-told clock i tx attach_id [] s = (refl, sym (append-nil s.painted))
output_loop-told clock i tx attach_id (wrote seq bytes ∷ ts) s =
    let s' : Screen = record {
      filter = observe_output s.filter bytes (clock i);
      painted = s.painted ++ bytes;
      cwd = s.cwd;
    } in
    let (ended, painted) = output_loop-told clock (suc i) tx attach_id ts s' in
    rw (output_loop, eq_bytes_refl attach_id)
      (ended, painted ∙ append_assoc s.painted bytes (told_bytes ts))
output_loop-told clock i tx attach_id (moved cwd ∷ ts) s =
    let s' : Screen = record { filter = s.filter; painted = s.painted; cwd = some cwd } in
    rw (output_loop, eq_bytes_refl attach_id) (output_loop-told clock (suc i) tx attach_id ts s')

-- An attach, and what the client is told while it lasts, on the channel `tx`.
pub record Stretch : Type 0 where
  pub target : Target
  pub attempts : Attempts
  pub tx : ℕ
  pub told : List Told

module _ (clock : ℕ → ℕ) where
  -- The client gets the shell's output, and can paint.
  pub record Delivers (r : Stretch) : Type 0 where
    pub painted : r.target.unpainted ≡ none
    pub messages :
        r.target.messages ≡ deliver clock 0 (told_messages r.tx r.target.attach_id r.told)

  -- Each attempt to attach again comes to the next attach.
  abbrev pub AllDeliver : List Stretch → Type 0
  AllDeliver [] = Unit
  AllDeliver (r ∷ rs) = (reconnect 50 r.attempts none ≡ ok r.target) × Delivers r × AllDeliver rs

-- The screens and the outputs behind them.
abbrev pub all_painted : List Stretch → Bytes
all_painted [] = []
all_painted (r ∷ rs) = r.target.screen_bytes ++ (told_bytes r.told ++ all_painted rs)

-- The last of the attaches.
abbrev pub last_attach : AttachId → List Stretch → AttachId
last_attach id [] = id
last_attach id (q ∷ rs) = last_attach q.target.attach_id rs

output_loop-Delivers :
    (clock : ℕ → ℕ) (r : Stretch) (s : Screen)
    → Delivers clock r
    → let o = output_loop r.target.attach_id s r.target.messages in
      (o.0 ≡ disconnected) × (o.1.painted ≡ s.painted ++ told_bytes r.told)
output_loop-Delivers clock r s d =
    rw (d.messages) (output_loop-told clock 0 r.tx r.target.attach_id r.told s)

module _ (clock : ℕ → ℕ) (gone : Attempts) {e : Bytes}
    (never : reconnect 50 gone none ≡ err e) where
  bridge_loop-AllDeliver :
      (r : Stretch) (rs : List Stretch) (s : Screen)
      → Delivers clock r
      → AllDeliver clock rs
      → let b = bridge_loop r.target s (map Stretch.attempts rs ++ (gone ∷ [])) in
        (b.0 ≡ daemon_gone e)
        × (b.1 ≡ last_attach r.target.attach_id rs)
        × (b.2.painted ≡ s.painted ++ (told_bytes r.told ++ all_painted rs))
  unfolding bridge_loop
  bridge_loop-AllDeliver r [] s d a =
      let (over, paints) = output_loop-Delivers clock r s d in
      rw (bridge_loop, over, never)
        (refl, refl, paints ∙ ap (λ b. s.painted ++ b) (sym (append-nil (told_bytes r.told))))
  bridge_loop-AllDeliver r (q ∷ rs) s d a =
      let (over, paints) = output_loop-Delivers clock r s d in
      let s' =
        painted_with (output_loop r.target.attach_id s r.target.messages).1 q.target.screen_bytes in
      let after = told_bytes q.told ++ all_painted rs in
      let (gone_last, last, rest) = bridge_loop-AllDeliver q rs s' a.1 a.2 in
      rw (bridge_loop, over, a.0, a.1.painted)
        (
          gone_last,
          last,
          rest
              ∙ ap (λ b. (b ++ q.target.screen_bytes) ++ after) paints
              ∙ append_assoc (s.painted ++ told_bytes r.told) q.target.screen_bytes after
              ∙ append_assoc s.painted (told_bytes r.told) (q.target.screen_bytes ++ after),
        )

  -- A client attaches, paints the screen, and then loses its connection and attaches again as often as
  -- it may be, until the shell or the daemon does not come back. If it can paint, and each time is told
  -- outputs and directories of its attach, in any order, up to the loss, it has painted each screen and
  -- behind it the outputs that it was told on that attach, in order, and nothing for the directories;
  -- at the end the attach that it gives up is its last, and it becomes a real shell.
  pub bridge_snapshot-AllDeliver :
      (r : Stretch) (rs : List Stretch) (s : Screen)
      → Delivers clock r
      → AllDeliver clock rs
      → let b =
          bridge_snapshot none none none r.target s (map Stretch.attempts rs ++ (gone ∷ [])) in
        (b.0 ≡ real_shell)
        × (b.1 ≡ some (last_attach r.target.attach_id rs))
        × (b.2.painted ≡ s.painted ++ all_painted (r ∷ rs))
  unfolding bridge_snapshot finish
  bridge_snapshot-AllDeliver r rs s d a =
      let (gone_last, last, paints) =
        bridge_loop-AllDeliver r rs (painted_with s r.target.screen_bytes) d a in
      rw (bridge_snapshot, d.painted, gone_last)
        (refl, ap some last, paints ∙ append_assoc s.painted r.target.screen_bytes _)
