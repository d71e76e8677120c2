-- ===== src/Bridge/InputFilter/Window.antt =====
-- `filter_input` inside and outside the window that follows a keyboard reset.
use livesh.Prelude.{
  ℕ, ◌+◌, ◌≤◌, ◌<◌, ◌≡◌, refl, ◌∙◌, true, false, Option, none, some, List, [], ◌∷◌, ◌++◌, arith,
  append_assoc, append-nil, length, is_empty, Bytes, Bool-cases, inl, inr, ◌⊎◌, leb,
}
use livesh.Bridge.InputFilter.{
  BridgeInputFilter, filter_rest, filter_input, should_filter, take_pending_then, pending_expired,
  flush_pending, set_pending, after_loop, pending_csi_timeout,
}
use livesh.Bridge.InputFilter.Scan.{
  Scans, scan_total, filter_loop-Scans, Removes, Removes-append_left, Scans-Removes, Removes-refl,
  waiting,
}

pub is_empty→nil {ℓ} : {A : Type ℓ} (xs : List A) → is_empty xs ≡ true → xs ≡ []
is_empty→nil [] h = refl
is_empty→nil (x ∷ xs) h = cc

-- The filter is in its window: releases are dropped at `now`.
abbrev pub IsActive : BridgeInputFilter → ℕ → Type 0
IsActive f now = (until : ℕ) × (f.stale_release_until ≡ some until) × (now ≤ until)

-- What a call at `now` sent on and left waiting.
pub record Filtered (f : BridgeInputFilter) (r : BridgeInputFilter × Bytes) (out rest : Bytes)
    (now : ℕ) : Type 0 where
  pub sent : r.1 ≡ out
  pub waits : r.0.pending ≡ rest
  pub window : r.0.stale_release_until ≡ f.stale_release_until
  pub deadline : (rest ≡ []) ⊎ (r.0.pending_until ≡ some (now + pending_csi_timeout))

take_pending-append :
    (f : BridgeInputFilter) (bytes : Bytes)
    → ((take_pending_then f bytes).1 ≡ f.pending ++ bytes)
      × ((take_pending_then f bytes).0.pending ≡ [])
      × ((take_pending_then f bytes).0.stale_release_until ≡ f.stale_release_until)
unfolding take_pending_then
take_pending-append f bytes = ground (arith, is_empty→nil f.pending)

after_loop-Filtered :
    (f : BridgeInputFilter) (out rest : Bytes) (now : ℕ)
    → f.pending ≡ []
    → Filtered f (after_loop f (out, waiting rest) now) out rest now
unfolding set_pending
after_loop-Filtered f out [] now h = record {
  sent = refl;
  waits = h;
  window = refl;
  deadline = inl refl;
}
after_loop-Filtered f out (x ∷ rest) now h = record {
  sent = refl;
  waits = refl;
  window = refl;
  deadline = inr refl;
}

should_filter-IsActive :
    (f : BridgeInputFilter) (now : ℕ) → IsActive f now → should_filter f now ≡ (f, true)
unfolding should_filter
should_filter-IsActive f now (until, e, h) = rw e (ground arith)

filter_rest-Filtered :
    (f : BridgeInputFilter) (before bytes : Bytes) (now : ℕ) {out rest : Bytes}
    → IsActive f now
    → Scans (f.pending ++ bytes) out rest
    → Filtered f (filter_rest f before bytes now) (before ++ out) rest now
unfolding filter_rest
filter_rest-Filtered f before bytes now {out} {rest} active s =
    let taken = take_pending-append f bytes in
    let g = (take_pending_then f bytes).0 in
    let looped = filter_loop-Scans (length (f.pending ++ bytes)) before s (omega arith) in
    let r = after_loop-Filtered g (before ++ out) rest now taken.1 in
    rw (should_filter-IsActive f now active, filter_rest)
      (rw (taken.0) (
        rw looped (record {
          sent = r.sent;
          waits = r.waits;
          window = r.window ∙ taken.2;
          deadline = r.deadline;
        })))

-- `filter_input` in its window, with the pending bytes still waiting, or given up.
pub filter_input-Filtered :
    (f : BridgeInputFilter) (bytes : Bytes) (now : ℕ) {out rest : Bytes}
    → IsActive f now
    → pending_expired f now ≡ false
    → Scans (f.pending ++ bytes) out rest
    → Filtered f (filter_input f bytes now) out rest now
unfolding filter_input
filter_input-Filtered f bytes now active waits s =
    rw (waits, filter_input) (filter_rest-Filtered f [] bytes now active s)

pub filter_input_expired-Filtered :
    (f : BridgeInputFilter) (bytes : Bytes) (now : ℕ) {out rest : Bytes}
    → IsActive f now
    → pending_expired f now ≡ true
    → Scans bytes out rest
    → Filtered f (filter_input f bytes now) (f.pending ++ out) rest now
unfolding filter_input flush_pending
filter_input_expired-Filtered f bytes now (until, e, h) gone s =
    let r =
      filter_rest-Filtered (record f { pending_until = none; pending = [] }) f.pending bytes now
        (until, e, h) s in
    rw (gone, filter_input)
      (record { sent = r.sent; waits = r.waits; window = r.window; deadline = r.deadline })

-- Outside its window the filter is off.
abbrev pub IsQuiet : BridgeInputFilter → ℕ → Type 0
IsQuiet f now =
    (f.stale_release_until ≡ none)
    ⊎ ((until : ℕ) × (f.stale_release_until ≡ some until) × (until < now))

pub IsActive-cases : (f : BridgeInputFilter) (now : ℕ) → IsActive f now ⊎ IsQuiet f now
IsActive-cases f now = go f.stale_release_until refl
  where
    go : (o : Option ℕ) → f.stale_release_until ≡ o → IsActive f now ⊎ IsQuiet f now
    go none e = inr (inl e)
    go (some until) e = elim (Bool-cases (leb now until)) [
      | inl h ↦ inl (until, e, ground arith)
      | inr h ↦ inr (inr (until, e, ground arith))
    ]

-- Outside the window everything that was pending and everything that comes in goes through, at once
-- and unchanged, and nothing is left pending.
pub filter_input-IsQuiet :
    (f : BridgeInputFilter) (bytes : Bytes) (now : ℕ)
    → IsQuiet f now
    → ((filter_input f bytes now).1 ≡ f.pending ++ bytes)
      × ((filter_input f bytes now).0.pending ≡ [])
unfolding filter_input filter_rest should_filter take_pending_then pending_expired flush_pending
filter_input-IsQuiet f bytes now (inl e) =
    rw (e, filter_input) (ground (arith, is_empty→nil f.pending))
filter_input-IsQuiet f bytes now (inr (until, e, h)) =
    rw (e, filter_input) (ground (arith, is_empty→nil f.pending))

filter_input_active-Removes :
    (f : BridgeInputFilter) (bytes : Bytes) (now : ℕ)
    → IsActive f now
    → Removes
        (f.pending ++ bytes)
        ((filter_input f bytes now).1 ++ (filter_input f bytes now).0.pending)
filter_input_active-Removes f bytes now active = elim (Bool-cases (pending_expired f now)) [
  | inl gone ↦
      let (out, rest, s) = scan_total bytes in
      let r = filter_input_expired-Filtered f bytes now active gone s in
      rw (r.sent, r.waits, append_assoc) (Removes-append_left f.pending (Scans-Removes s))
  | inr waits ↦
      let (out, rest, s) = scan_total (f.pending ++ bytes) in
      let r = filter_input-Filtered f bytes now active waits s in
      rw (r.sent, r.waits) (Scans-Removes s)
]

-- In any state and at any time, what `filter_input` sends on, followed by what it leaves pending, is
-- what was pending followed by the new input, less some complete key releases and nothing else.
pub filter_input-Removes :
    (f : BridgeInputFilter) (bytes : Bytes) (now : ℕ)
    → Removes
        (f.pending ++ bytes)
        ((filter_input f bytes now).1 ++ (filter_input f bytes now).0.pending)
filter_input-Removes f bytes now = elim (IsActive-cases f now) [
  | inl active ↦ filter_input_active-Removes f bytes now active
  | inr quiet ↦
      let (sent, waits) = filter_input-IsQuiet f bytes now quiet in
      rw (sent, waits, append-nil) (Removes-refl (f.pending ++ bytes))
]
