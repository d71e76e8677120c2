-- ===== src/Bridge/OutputLoop/Painted.antt =====
-- From the shell to the client's screen: what is painted is what the shell wrote.
use livesh.Prelude.{
  ℕ, suc, ◌+◌, ◌<◌, ◌^◌, ◌≡◌, refl, sym, ap, ◌∙◌, none, some, List, [], ◌∷◌, ◌++◌, Bytes,
  eq_bytes_refl, length,
}
use livesh.Protocol.{AttachId}
use livesh.Terminal.{Vt100}
use livesh.Daemon.Os.{Os}
use livesh.Daemon.Shell.{ShellState, Sent, Attach}
use livesh.Daemon.Shell.Attaching.{record_all, numbered, AllOpen, record_all-numbered}
use livesh.Bridge.KeyboardReset.{observe_output}
use livesh.Bridge.OutputLoop.{Screen, disconnected, Incoming, handle, output_loop}

-- The messages as a client meets them, the `i`-th at the time `clock i`.
abbrev pub deliver : (ℕ → ℕ) → ℕ → List Sent → List Incoming
deliver clock i [] = []
deliver clock i (m ∷ ms) = (clock i, none, m.1) ∷ deliver clock (suc i) ms

-- The bytes of the chunks that a shell wrote.
abbrev pub all_bytes : List (Os × Bytes) → Bytes
all_bytes [] = []
all_bytes ((os, bytes) ∷ cs) = bytes ++ all_bytes cs

append_nil : (a : Bytes) → a ++ [] ≡ a
append_nil [] = refl
append_nil (x ∷ a) = ap (◌∷◌ x) (append_nil a)

append_assoc : (a b c : Bytes) → (a ++ b) ++ c ≡ a ++ (b ++ c)
append_assoc [] b c = refl
append_assoc (x ∷ a) b c = ap (◌∷◌ x) (append_assoc a b c)

pub output_loop-numbered :
    (clock : ℕ → ℕ) (i tx : ℕ) (attach_id : AttachId) (n : ℕ) (cs : List (Os × Bytes)) (s : Screen)
    → let r = output_loop attach_id s (deliver clock i (numbered tx attach_id n cs)) in
      (r.0 ≡ disconnected) × (r.1.painted ≡ s.painted ++ all_bytes cs)
unfolding output_loop handle
output_loop-numbered clock i tx attach_id n [] s = (refl, sym (append_nil s.painted))
output_loop-numbered clock i tx attach_id n ((os, bytes) ∷ cs) s =
    let s' : Screen = record {
      filter = observe_output s.filter bytes (clock i);
      painted = s.painted ++ bytes;
      cwd = s.cwd;
    } in
    let (ended, painted) = output_loop-numbered clock (suc i) tx attach_id (n + 1) cs s' in
    rw (output_loop, eq_bytes_refl attach_id)
      (ended, painted ∙ append_assoc s.painted bytes (all_bytes cs))

-- What a shell writes while a client is attached is what the client paints, no byte lost, doubled or
-- out of order, if the client's channel stays open, the shell's counter of 64 bits does not wrap and
-- the client can paint; the client goes on until the connection ends.
pub output_loop-record_all :
    {P : Type 0} (vt : Vt100 P) (clock : ℕ → ℕ) (s : ShellState P) (a : Attach)
    → (cs : List (Os × Bytes)) (screen : Screen) → s.attach ≡ some a
    → AllOpen a.tx cs
    → s.seq + length cs < 2 ^ 64
    → let r = output_loop a.id screen (deliver clock 0 (record_all vt s cs).1) in
      (r.0 ≡ disconnected) × (r.1.painted ≡ screen.painted ++ all_bytes cs)
output_loop-record_all vt clock s a cs screen h o l =
    rw (record_all-numbered vt s a cs h o l)
      (output_loop-numbered clock 0 a.tx a.id s.seq cs screen)
