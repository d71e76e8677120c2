-- ===== src/Bridge/InputFilter.antt =====
-- src/bridge.rs, `BridgeInputFilter`: after an application has given the keyboard back, the key
-- releases that the terminal had queued for it are dropped for a while. An `Instant` and a
-- `Duration` are numbers of milliseconds.
pub mod Scan
pub mod Chunks
pub mod Window
use livesh.Prelude.{
  ℕ, zero, suc, ◌+◌, ◌-◌, ◌≡◌, Bool, true, false, not, ◌&&◌, Option, none, some, List, [], ◌∷◌,
  ◌++◌, length, take, drop, is_empty, leb, ◌==◌, if◌then◌else◌, Bytes,
}
use livesh.Bridge.Csi.{CsiU, release, other, incomplete, not_csi_u, escape, classify_csi_u}

abbrev pub stale_key_release_suppression : ℕ
stale_key_release_suppression = 500

abbrev pub pending_csi_timeout : ℕ
pending_csi_timeout = 20

pub record BridgeInputFilter : Type 0 where
  pub stale_release_until : Option ℕ
  pub pending : Bytes
  pub pending_until : Option ℕ
  pub output_pending : Bytes

pub new : BridgeInputFilter
new = record { stale_release_until = none; pending = []; pending_until = none; output_pending = [] }

unfoldable pub flush_pending : BridgeInputFilter → BridgeInputFilter × Bytes
flush_pending f = (record f { pending_until = none; pending = [] }, f.pending)

abbrev is_none_or_le : Option ℕ → ℕ → Bool
is_none_or_le none now = true
is_none_or_le (some until) now = leb until now

unfoldable pub pending_expired : BridgeInputFilter → ℕ → Bool
pending_expired f now = not (is_empty f.pending) && is_none_or_le f.pending_until now

abbrev or_now : Option ℕ → ℕ → ℕ
or_now none now = now
or_now (some until) now = until

-- How long `spawn_input_task` waits for more input; the subtraction is the source's saturating one.
unfoldable pub pending_timeout : BridgeInputFilter → ℕ → Option ℕ
pending_timeout f now = if is_empty f.pending then none else some (or_now f.pending_until now - now)

abbrev check_window : Option ℕ → BridgeInputFilter → ℕ → BridgeInputFilter × Bool
check_window none f now = (f, false)
check_window (some until) f now =
    if leb now until then (f, true) else (record f { stale_release_until = none }, false)

unfoldable pub should_filter : BridgeInputFilter → ℕ → BridgeInputFilter × Bool
should_filter f now = check_window f.stale_release_until f now

unfoldable pub set_pending : BridgeInputFilter → Bytes → ℕ → BridgeInputFilter
set_pending f bytes now = record f {
  pending = bytes;
  pending_until = some (now + pending_csi_timeout);
}

unfoldable pub take_pending_then : BridgeInputFilter → Bytes → BridgeInputFilter × Bytes
take_pending_then f bytes =
    if is_empty f.pending
    then (f, bytes)
    else (record f { pending = []; pending_until = none }, f.pending ++ bytes)

-- The loop of `filter_input`, on fuel: the second argument is `input[i..]`, the third `out`. The
-- result is `out`, and the bytes that `set_pending` is called with.
unfoldable pub filter_loop : ℕ → Bytes → Bytes → Bytes × Option Bytes
filter_loop zero input out = (out, none)
filter_loop (suc fuel) [] out = (out, none)
filter_loop (suc fuel) (b ∷ bs) out =
    elim (if b == escape then classify_csi_u (b ∷ bs) else not_csi_u) [
      | release len ↦ filter_loop fuel (drop len (b ∷ bs)) out
      | other len ↦ filter_loop fuel (drop len (b ∷ bs)) (out ++ take len (b ∷ bs))
      | incomplete ↦ (out, some (b ∷ bs))
      | not_csi_u ↦ filter_loop fuel bs (out ++ (b ∷ []))
    ]

abbrev pub after_loop : BridgeInputFilter → Bytes × Option Bytes → ℕ → BridgeInputFilter × Bytes
after_loop f (out, none) now = (f, out)
after_loop f (out, some rest) now = (set_pending f rest now, out)

-- The part of `filter_input` behind the flush; each round of the loop uses up a byte, so the
-- number of bytes is fuel enough.
pub filter_rest : BridgeInputFilter → Bytes → Bytes → ℕ → BridgeInputFilter × Bytes
unfolding should_filter take_pending_then
filter_rest f out bytes now =
    let (g, active) = should_filter f now in
    let (h, input) = take_pending_then g bytes in
    if active then after_loop h (filter_loop (length input) input out) now else (h, out ++ input)

unfoldable pub filter_input : BridgeInputFilter → Bytes → ℕ → BridgeInputFilter × Bytes
unfolding filter_rest pending_expired flush_pending
filter_input f bytes now =
    let (g, out) = if pending_expired f now then flush_pending f else (f, []) in
    filter_rest g out bytes now
