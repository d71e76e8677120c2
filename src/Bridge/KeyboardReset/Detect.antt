-- ===== src/Bridge/KeyboardReset/Detect.antt =====
-- `observe_output` sees every keyboard reset, also one that two outputs share.
use livesh.Prelude.{
  ℕ, ◌+◌, ◌-◌, ◌≤◌, ◌≡◌, ◌≢◌, refl, sym, ap, ◌∙◌, subst, Bool, true, false, some, [], ◌∷◌, ◌++◌,
  arith, append_assoc, length, length-append, drop, all, Bytes, is_ascii_digit, drop-append_le,
}
use livesh.Bridge.Csi.{escape}
use livesh.Bridge.InputFilter.{BridgeInputFilter, stale_key_release_suppression}
use livesh.Bridge.InputFilter.Window.{is_empty→nil}
use livesh.Bridge.KeyboardReset.{
  max_output_reset_prefix, is_digit_or_semicolon, before_u, check_params,
  direct_keyboard_protocol_reset, digits_then_u, resets_here, output_resets_kitty_keyboard_protocol,
  is_keyboard_reset_prefix, first_prefix, trailing_keyboard_reset_prefix, observe_output,
}

-- The two sequences that give the keyboard back: `ESC [ < digits u` pops the mode, and
-- `ESC [ = parameters u` sets it to one with no event reports.
pub data IsReset (seq : Bytes) : Type 0 where
  pop :
      (digits : Bytes)
      → seq ≡ escape ∷ b'[' ∷ b'<' ∷ (digits ++ (b'u' ∷ []))
      → all is_ascii_digit digits ≡ true
      → IsReset seq
  direct :
      (params : Bytes)
      → seq ≡ escape ∷ b'[' ∷ b'=' ∷ (params ++ (b'u' ∷ []))
      → all is_digit_or_semicolon params ≡ true
      → check_params (some params) ≡ true
      → IsReset seq

digits_then_u-append :
    (ds ys : Bytes) → all is_ascii_digit ds ≡ true → digits_then_u (ds ++ (b'u' ∷ ys)) ≡ true
unfolding digits_then_u
digits_then_u-append [] ys h = refl
digits_then_u-append (d ∷ ds) ys h = ground (arith, digits_then_u-append ds ys)

before_u-append :
    (ps ys : Bytes) → all is_digit_or_semicolon ps ≡ true → before_u (ps ++ (b'u' ∷ ys)) ≡ some ps
before_u-append [] ys h = refl
before_u-append (p ∷ ps) ys h = ground (arith, before_u-append ps ys (ground arith))

direct-append :
    (ps ys : Bytes)
    → all is_digit_or_semicolon ps ≡ true
    → direct_keyboard_protocol_reset (ps ++ (b'u' ∷ ys)) ≡ check_params (some ps)
unfolding direct_keyboard_protocol_reset
direct-append ps ys h = ap check_params (before_u-append ps ys h)

resets_cons :
    (x : ℕ) (zs : Bytes)
    → output_resets_kitty_keyboard_protocol zs ≡ true
    → output_resets_kitty_keyboard_protocol (x ∷ zs) ≡ true
unfolding output_resets_kitty_keyboard_protocol
resets_cons x [] h = cc
resets_cons x (a ∷ []) h = cc
resets_cons x (a ∷ b ∷ zs) h = ground arith

resets-append :
    (xs zs : Bytes)
    → output_resets_kitty_keyboard_protocol zs ≡ true
    → output_resets_kitty_keyboard_protocol (xs ++ zs) ≡ true
resets-append [] zs h = h
resets-append (x ∷ xs) zs h = resets_cons x (xs ++ zs) (resets-append xs zs h)

resets-IsReset :
    (seq ys : Bytes) → IsReset seq → output_resets_kitty_keyboard_protocol (seq ++ ys) ≡ true
unfolding output_resets_kitty_keyboard_protocol resets_here
resets-IsReset seq ys (pop ds e h) =
    rw e (ground (arith, digits_then_u-append ds ys h, append_assoc ds (b'u' ∷ []) ys))
resets-IsReset seq ys (direct ps e h k) =
    rw e (ground (arith, direct-append ps ys h, append_assoc ps (b'u' ∷ []) ys))

observe_output-resets :
    (f : BridgeInputFilter) (bytes : Bytes) (now : ℕ)
    → output_resets_kitty_keyboard_protocol (f.output_pending ++ bytes) ≡ true
    → (observe_output f bytes now).stale_release_until ≡ some (now + stale_key_release_suppression)
unfolding observe_output
observe_output-resets f bytes now h = ground (arith, is_empty→nil f.output_pending)

-- A reset anywhere in one output opens the window.
pub observe_output-IsReset :
    (f : BridgeInputFilter) (xs seq ys : Bytes) (now : ℕ)
    → IsReset seq
    → (observe_output f (xs ++ (seq ++ ys)) now).stale_release_until
      ≡ some (now + stale_key_release_suppression)
observe_output-IsReset f xs seq ys now r =
    observe_output-resets f (xs ++ (seq ++ ys)) now
      (resets-append f.output_pending _ (resets-append xs _ (resets-IsReset seq ys r)))

-- Before the last byte of a sequence `ds u` there are only bytes of `ds`.
all-proper_prefix :
    (P : ℕ → Bool) (ps ds : Bytes) (q : ℕ) (qs : Bytes)
    → ps ++ (q ∷ qs) ≡ ds ++ (b'u' ∷ [])
    → all P ds ≡ true
    → all P ps ≡ true
all-proper_prefix P [] ds q qs e h = refl
all-proper_prefix P (p ∷ []) [] q qs e h = cc
all-proper_prefix P (p ∷ p' ∷ ps) [] q qs e h = cc
all-proper_prefix P (p ∷ ps) (d ∷ ds) q qs e h =
    ground (arith, all-proper_prefix P ps ds q qs (ground arith) (ground arith))

is_prefix-IsReset :
    (seq ps : Bytes) (q : ℕ) (qs : Bytes)
    → IsReset seq
    → seq ≡ ps ++ (q ∷ qs)
    → ps ≢ []
    → is_keyboard_reset_prefix ps ≡ true
unfolding is_keyboard_reset_prefix
is_prefix-IsReset seq [] q qs r e ne = absurd (ne refl)
is_prefix-IsReset seq (a ∷ []) q qs (pop ds s h) e ne = ground arith
is_prefix-IsReset seq (a ∷ []) q qs (direct ds s h k) e ne = ground arith
is_prefix-IsReset seq (a ∷ b ∷ []) q qs (pop ds s h) e ne = ground arith
is_prefix-IsReset seq (a ∷ b ∷ []) q qs (direct ds s h k) e ne = ground arith
is_prefix-IsReset seq (a ∷ b ∷ c ∷ ps) q qs (pop ds s h) e ne =
    ground (arith, all-proper_prefix is_ascii_digit ps ds q qs (ground arith) h)
is_prefix-IsReset seq (a ∷ b ∷ c ∷ ps) q qs (direct ds s h k) e ne =
    ground (arith, all-proper_prefix is_digit_or_semicolon ps ds q qs (ground arith) h)

all-escape : (P : ℕ → Bool) (ws ps : Bytes) → P escape ≡ false → all P (ws ++ (escape ∷ ps)) ≡ false
all-escape P [] ps h = ground arith
all-escape P (w ∷ ws) ps h = ground (arith, all-escape P ws ps h)

-- No beginning of a reset has an escape behind its first byte.
not-prefix-escape :
    (z : ℕ) (ws ps : Bytes) → is_keyboard_reset_prefix (z ∷ (ws ++ (escape ∷ ps))) ≡ false
unfolding is_keyboard_reset_prefix
not-prefix-escape z [] [] = ground arith
not-prefix-escape z [] (p ∷ ps) = ground arith
not-prefix-escape z (w ∷ []) ps = ground arith
not-prefix-escape z (w ∷ w' ∷ ws) ps =
    ground
      (arith, all-escape is_ascii_digit ws ps refl, all-escape is_digit_or_semicolon ws ps refl)

first_prefix-append :
    (zs ps : Bytes)
    → is_keyboard_reset_prefix (escape ∷ ps) ≡ true
    → first_prefix (zs ++ (escape ∷ ps)) ≡ escape ∷ ps
unfolding first_prefix
first_prefix-append [] ps h = ground arith
first_prefix-append (z ∷ zs) ps h =
    ground (arith, not-prefix-escape z zs ps, first_prefix-append zs ps h)

trailing-append :
    (zs ps : Bytes)
    → is_keyboard_reset_prefix (escape ∷ ps) ≡ true
    → length (escape ∷ ps) ≤ max_output_reset_prefix
    → trailing_keyboard_reset_prefix (zs ++ (escape ∷ ps)) ≡ escape ∷ ps
unfolding trailing_keyboard_reset_prefix
trailing-append zs ps h k =
    let n = length (zs ++ (escape ∷ ps)) - max_output_reset_prefix in
    rw (drop-append_le n zs (escape ∷ ps) (omega (arith, length-append zs (escape ∷ ps))))
      (first_prefix-append (drop n zs) ps h)

head-IsReset :
    (seq : Bytes) (p : ℕ) (ps qs : Bytes) → IsReset seq → seq ≡ (p ∷ ps) ++ qs → p ≡ escape
head-IsReset seq p ps qs (pop ds s h) e = ground arith
head-IsReset seq p ps qs (direct ds s h k) e = ground arith

output_pending-observe :
    (f : BridgeInputFilter) (bytes : Bytes) (now : ℕ)
    → (observe_output f bytes now).output_pending
      ≡ trailing_keyboard_reset_prefix (f.output_pending ++ bytes)
unfolding observe_output
output_pending-observe f bytes now = ground (arith, is_empty→nil f.output_pending)

-- A reset that two outputs share, with at most 64 of its bytes in the first, opens the window when
-- the second is observed.
pub observe_output-split :
    (f : BridgeInputFilter) (xs seq ys : Bytes) (p : ℕ) (ps : Bytes) (q : ℕ) (qs : Bytes)
    (now later : ℕ)
    → IsReset seq
    → seq ≡ (p ∷ ps) ++ (q ∷ qs)
    → length (p ∷ ps) ≤ max_output_reset_prefix
    → let first = observe_output f (xs ++ (p ∷ ps)) now in
      (observe_output first ((q ∷ qs) ++ ys) later).stale_release_until
      ≡ some (later + stale_key_release_suppression)
observe_output-split f xs seq ys p ps q qs now later r e k =
    let first = observe_output f (xs ++ (p ∷ ps)) now in
    let head = head-IsReset seq p ps (q ∷ qs) r e in
    let beginning : is_keyboard_reset_prefix (escape ∷ ps) ≡ true =
      subst (λ c. is_keyboard_reset_prefix (c ∷ ps) ≡ true) head
        (is_prefix-IsReset seq (p ∷ ps) q qs r e (λ z. cc)) in
    let kept : first.output_pending ≡ p ∷ ps =
      output_pending-observe f (xs ++ (p ∷ ps)) now
      ∙ ap trailing_keyboard_reset_prefix (sym (append_assoc f.output_pending xs (p ∷ ps)))
      ∙ rw head (trailing-append (f.output_pending ++ xs) ps beginning k) in
    let whole : first.output_pending ++ ((q ∷ qs) ++ ys) ≡ seq ++ ys =
      ap (λ t. t ++ ((q ∷ qs) ++ ys)) kept
      ∙ sym (append_assoc (p ∷ ps) (q ∷ qs) ys)
      ∙ ap (λ t. t ++ ys) (sym e) in
    observe_output-resets first ((q ∷ qs) ++ ys) later
      (ap output_resets_kitty_keyboard_protocol whole ∙ resets-IsReset seq ys r)
