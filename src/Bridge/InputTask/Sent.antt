-- ===== src/Bridge/InputTask/Sent.antt =====
-- What the input task sends over a whole run: the input without complete key releases, in order.
use livesh.Prelude.{
  ℕ, suc, Bool, ◌≡◌, refl, sym, ap, ◌∙◌, subst, true, Bool-cases, List, [], ◌∷◌, ◌++◌, inl, inr,
  arith, append_assoc, append-nil, take, take-append-drop, Bytes,
}
use livesh.Bridge.Csi.Stable.{classify_csi_u-Report}
use livesh.Bridge.InputFilter.{BridgeInputFilter, flush_pending, pending_expired, filter_input}
use livesh.Bridge.InputFilter.Scan.{
  Scans, done, wait, discard, keep, pass, Removes, nil, byte, key_release, Removes-refl,
  Removes-append_left, IsRelease-split, scan_total,
}
use livesh.Bridge.InputFilter.Window.{
  IsActive-cases, filter_input-Filtered, filter_input_expired-Filtered, filter_input-IsQuiet,
}
use livesh.Bridge.KeyboardReset.{observe_output}
use livesh.Bridge.InputTask.{
  Turn, read_bytes, timed_out, closed, observed, if_any, send_input, before_read, after_wait,
  input_task,
}

-- A beginning of `xs` went out as `out`, less key releases, and `rest` is what is left of `xs`.
abbrev pub Passes : Bytes → Bytes → Bytes → Type 0
Passes xs out rest = (front : Bytes) × (xs ≡ front ++ rest) × Removes front out

Removes-append :
    {xs out ys out' : Bytes} → Removes xs out → Removes ys out' → Removes (xs ++ ys) (out ++ out')
Removes-append nil s = s
Removes-append (byte x r) s = byte x (Removes-append r s)
Removes-append {ys = zs} (key_release {xs} {ys} seq is_release shape r) s =
    key_release seq is_release (ap (λ t. t ++ zs) shape ∙ append_assoc seq ys zs)
      (Removes-append r s)

Scans-Passes : {xs out rest : Bytes} → Scans xs out rest → Passes xs out rest
Scans-Passes done = ([], refl, nil)
Scans-Passes (wait e) = ([], refl, nil)
Scans-Passes (discard {x} {xs} {out} {rest} len e s) =
    let (front, shape, r) = Scans-Passes s in
    let (seq, is_release, split) =
      IsRelease-split (x ∷ xs) len (classify_csi_u-Report true (x ∷ xs) len e) in
    (
      seq ++ front,
      split ∙ ap (λ t. seq ++ t) shape ∙ sym (append_assoc seq front rest),
      key_release seq is_release refl r,
    )
Scans-Passes {rest = rest} (keep {x} {xs} {out} len e s) =
    let (front, shape, r) = Scans-Passes s in
    (
      take len (x ∷ xs) ++ front,
      sym (take-append-drop len (x ∷ xs))
          ∙ ap (λ t. take len (x ∷ xs) ++ t) shape
          ∙ sym (append_assoc (take len (x ∷ xs)) front rest),
      Removes-append_left (take len (x ∷ xs)) r,
    )
Scans-Passes (pass {x} e s) =
    let (front, shape, r) = Scans-Passes s in (x ∷ front, ap (λ t. x ∷ t) shape, byte x r)

-- The same for one call of the filter, with what was pending in front of the new bytes.
filter_input-Passes :
    (f : BridgeInputFilter) (bytes : Bytes) (now : ℕ)
    → Passes
        (f.pending ++ bytes)
        ((filter_input f bytes now).1)
        ((filter_input f bytes now).0.pending)
filter_input-Passes f bytes now = elim (IsActive-cases f now) [
  | inr quiet ↦
      let (sent, waits) = filter_input-IsQuiet f bytes now quiet in
      rw (sent, waits)
        (
          f.pending ++ bytes,
          sym (append-nil (f.pending ++ bytes)),
          Removes-refl (f.pending ++ bytes),
        )
  | inl active ↦ elim (Bool-cases (pending_expired f now)) [
    | inl gone ↦
        let (out, rest, s) = scan_total bytes in
        let r = filter_input_expired-Filtered f bytes now active gone s in
        let (front, shape, removes) = Scans-Passes s in
        rw (r.sent, r.waits)
          (
            f.pending ++ front,
            ap (λ t. f.pending ++ t) shape ∙ sym (append_assoc f.pending front rest),
            Removes-append_left f.pending removes,
          )
    | inr waits ↦
        let (out, rest, s) = scan_total (f.pending ++ bytes) in
        let r = filter_input-Filtered f bytes now active waits s in
        rw (r.sent, r.waits) (Scans-Passes s)
  ]
]

-- The chunks in one.
abbrev pub flatten : List Bytes → Bytes
flatten [] = []
flatten (c ∷ cs) = c ++ flatten cs

flatten-if_any : (out : Bytes) (rest : List Bytes) → flatten (if_any out rest) ≡ out ++ flatten rest
flatten-if_any [] rest = refl
flatten-if_any (x ∷ out) rest = refl

before_read-pending :
    (f : BridgeInputFilter) (now : ℕ)
    → (before_read f now).1 ++ (before_read f now).0.pending ≡ f.pending
unfolding before_read flush_pending
before_read-pending f now = ground (arith, append-nil f.pending)

after_wait-pending :
    (f : BridgeInputFilter) (now : ℕ)
    → (after_wait f now).1 ++ (after_wait f now).0.pending ≡ f.pending
unfolding after_wait flush_pending
after_wait-pending f now = ground (arith, append-nil f.pending)

pending-observe_output :
    (f : BridgeInputFilter) (bytes : Bytes) (now : ℕ)
    → (observe_output f bytes now).pending ≡ f.pending
unfolding observe_output
pending-observe_output f bytes now = ground arith

-- What is read in a run, up to the end of the input.
abbrev pub all_read : List (ℕ × Turn) → Bytes
all_read [] = []
all_read ((now, read_bytes t bytes) ∷ turns) = bytes ++ all_read turns
all_read ((now, closed) ∷ turns) = []
all_read ((now, _) ∷ turns) = all_read turns

Passes-front :
    {xs out rest : Bytes} (o : Bytes) → Passes xs out rest → Passes (o ++ xs) (o ++ out) rest
Passes-front {rest = rest} o (front, shape, r) =
    (o ++ front, ap (λ t. o ++ t) shape ∙ sym (append_assoc o front rest), Removes-append_left o r)

-- A flush in front: the pending bytes go out, and what is left of them stays.
Passes-flush :
    (p o q more out rest : Bytes)
    → o ++ q ≡ p
    → Passes (q ++ more) out rest
    → Passes (p ++ more) (o ++ out) rest
Passes-flush p o q more out rest e h =
    subst (λ t. Passes t (o ++ out) rest) (sym (append_assoc o q more) ∙ ap (λ t. t ++ more) e)
      (Passes-front o h)

Passes-more :
    (p q out out' rest bytes more : Bytes)
    → Passes (p ++ bytes) out q
    → Passes (q ++ more) out' rest
    → Passes (p ++ (bytes ++ more)) (out ++ out') rest
Passes-more p q out out' rest bytes more (x, shape, r) (y, shape', r') = (
  x ++ y,
  sym (append_assoc p bytes more)
      ∙ ap (λ t. t ++ more) shape
      ∙ append_assoc x q more
      ∙ ap (λ t. x ++ t) shape'
      ∙ sym (append_assoc x y rest),
  Removes-append r r',
)

-- What `send_input` is called with over a whole run: all of the input but complete key releases, up to
-- what is pending at the end.
pub input_task-Handed :
    (f : BridgeInputFilter) (turns : List (ℕ × Turn))
    → let r = input_task f turns in
      Passes (f.pending ++ all_read turns) (flatten (r.0)) (r.1.pending)
unfolding input_task
input_task-Handed f [] = ([], append-nil f.pending, nil)
input_task-Handed f ((now, observed t bytes) ∷ turns) =
    let r = input_task (observe_output f bytes t) turns in
    subst (λ p. Passes (p ++ all_read turns) (flatten (r.0)) (r.1.pending))
      (pending-observe_output f bytes t) (input_task-Handed (observe_output f bytes t) turns)
input_task-Handed f ((now, closed) ∷ turns) =
    let (g, out) = before_read f now in
    rw (flatten-if_any out []) (
      Passes-flush f.pending out g.pending [] [] g.pending (before_read-pending f now)
        ([], append-nil g.pending, nil))
input_task-Handed f ((now, timed_out) ∷ turns) =
    let (g, out) = before_read f now in
    let (h, waited) = after_wait g now in
    let (rest, last) = input_task h turns in
    rw (flatten-if_any out (if_any waited rest), flatten-if_any waited rest)
      (Passes-flush f.pending out g.pending (all_read turns) (waited ++ flatten rest) last.pending
        (before_read-pending f now)
        (Passes-flush g.pending waited h.pending (all_read turns) (flatten rest) last.pending
          (after_wait-pending g now) (input_task-Handed h turns)))
input_task-Handed f ((now, read_bytes t bytes) ∷ turns) =
    let (g, out) = before_read f now in
    let (h, passed) = filter_input g bytes t in
    let (rest, last) = input_task h turns in
    rw (flatten-if_any out (if_any passed rest), flatten-if_any passed rest)
      (Passes-flush f.pending out g.pending (bytes ++ all_read turns) (passed ++ flatten rest)
        last.pending (before_read-pending f now)
        (Passes-more g.pending h.pending passed (flatten rest) last.pending bytes (all_read turns)
          (filter_input-Passes g bytes t) (input_task-Handed h turns)))

-- Some of the chunks of the first list, in its order: each is kept whole or dropped whole.
pub data Drops : List Bytes → List Bytes → Type 0 where
  none_left : Drops [] []
  kept : {cs ds : List Bytes} (c : Bytes) → Drops cs ds → Drops (c ∷ cs) (c ∷ ds)
  dropped : {cs ds : List Bytes} (c : Bytes) → Drops cs ds → Drops (c ∷ cs) ds

pub send_input-all :
    (succeeds : ℕ → Bool) (n : ℕ) (cs : List Bytes)
    → ((k : ℕ) → succeeds k ≡ true)
    → send_input succeeds n cs ≡ cs
unfolding send_input
send_input-all succeeds n [] h = refl
send_input-all succeeds n (c ∷ cs) h =
    rw (h n) (ap (λ t. c ∷ t) (send_input-all succeeds (suc n) cs h))
