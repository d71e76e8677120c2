-- ===== src/Bridge/InputFilter/Chunks.antt =====
-- How the terminal's input is cut into reads makes no difference to the filter.
use livesh.Prelude.{
  ℕ, ◌+◌, ◌<◌, ◌≡◌, refl, sym, ◌∙◌, false, [], ◌∷◌, ◌++◌, arith, append_assoc, Bytes, Bool-cases,
  inl, inr, subst, ◌==◌, length, drop-append_length,
}
use livesh.Bridge.Csi.{IsRelease, classify_csi_u, not_csi_u, escape}
use livesh.Bridge.Csi.Stable.{classify_csi_u-IsRelease}
use livesh.Bridge.InputFilter.{
  BridgeInputFilter, filter_input, pending_expired, pending_csi_timeout,
}
use livesh.Bridge.InputFilter.Scan.{Scans, pass, discard, scan_total, Scans-append}
use livesh.Bridge.InputFilter.Window.{
  IsActive, Filtered, filter_input-Filtered, filter_input_expired-Filtered,
}

-- What waits after one call has not expired when the next comes within the timeout.
not_expired :
    (f : BridgeInputFilter) {r : BridgeInputFilter × Bytes} {out rest : Bytes} (now later : ℕ)
    → Filtered f r out rest now
    → later < now + pending_csi_timeout
    → pending_expired r.0 later ≡ false
unfolding pending_expired
not_expired f {r} now later k h = elim k.deadline [
  | inl e ↦ rw (k.waits ∙ e, pending_expired) refl
  | inr e ↦ rw (e, pending_expired) (ground arith)
]

-- The second call, on what the first left waiting.
second :
    (f : BridgeInputFilter) {r : BridgeInputFilter × Bytes} {out rest out' rest' : Bytes}
    (ys : Bytes) (now later : ℕ)
    → Filtered f r out rest now
    → IsActive f later
    → later < now + pending_csi_timeout
    → Scans (rest ++ ys) out' rest'
    → Filtered r.0 (filter_input r.0 ys later) out' rest' later
second f {r} {out' = out'} {rest' = rest'} ys now later k (until, e, h) soon t =
    filter_input-Filtered r.0 ys later (until, k.window ∙ e, h) (not_expired f now later k soon)
      (subst (λ p. Scans (p ++ ys) out' rest') (sym k.waits) t)

-- In the window, two reads within the timeout of each other are filtered as one read of the same
-- bytes would be: the same bytes go through, and the same bytes are left pending.
pub filter_input-append :
    (f : BridgeInputFilter) (xs ys : Bytes) (now later : ℕ)
    → IsActive f now
    → IsActive f later
    → later < now + pending_csi_timeout
    → let first = filter_input f xs now in
      let next = filter_input first.0 ys later in
      let whole = filter_input f (xs ++ ys) now in
      (first.1 ++ next.1 ≡ whole.1) × (next.0.pending ≡ whole.0.pending)
filter_input-append f xs ys now later active still soon =
    elim (Bool-cases (pending_expired f now)) [
      | inl gone ↦
          let (out, rest, s) = scan_total xs in
          let (out', rest', t) = scan_total (rest ++ ys) in
          let r = filter_input_expired-Filtered f xs now active gone s in
          let r' = second f ys now later r still soon t in
          let w =
            filter_input_expired-Filtered f (xs ++ ys) now active gone (Scans-append ys s t) in
          (rw (r.sent, r'.sent, w.sent) (append_assoc f.pending out out'), r'.waits ∙ sym w.waits)
      | inr waits ↦
          let (out, rest, s) = scan_total (f.pending ++ xs) in
          let (out', rest', t) = scan_total (rest ++ ys) in
          let r = filter_input-Filtered f xs now active waits s in
          let r' = second f ys now later r still soon t in
          let joined =
            subst (λ z. Scans z (out ++ out') rest') (append_assoc f.pending xs ys)
              (Scans-append ys s t) in
          let w = filter_input-Filtered f (xs ++ ys) now active waits joined in
          (rw (r.sent, r'.sent, w.sent) refl, r'.waits ∙ sym w.waits)
    ]

-- Text with no escape byte in it.
abbrev pub IsPlain : Bytes → Type 0
IsPlain [] = Unit
IsPlain (b ∷ bs) = ((b == escape) ≡ false) × IsPlain bs

classify_csi_u-plain :
    (b : ℕ) (bs : Bytes) → (b == escape) ≡ false → classify_csi_u (b ∷ bs) ≡ not_csi_u
unfolding classify_csi_u
classify_csi_u-plain b [] h = ground arith
classify_csi_u-plain b (c ∷ bs) h = ground arith

Scans-plain :
    {ys out rest : Bytes} (text : Bytes)
    → IsPlain text
    → Scans ys out rest
    → Scans (text ++ ys) (text ++ out) rest
Scans-plain [] p s = s
Scans-plain {ys} (b ∷ text) p s =
    pass (classify_csi_u-plain b (text ++ ys) p.0) (Scans-plain text p.1 s)

Scans-IsRelease :
    {ys out rest : Bytes} (seq : Bytes)
    → IsRelease seq
    → Scans ys out rest
    → Scans (seq ++ ys) out rest
Scans-IsRelease [] r s = absurd (ground (arith, r.shape))
Scans-IsRelease {ys} {out} {rest} (x ∷ seq) r s =
    discard (length (x ∷ seq)) (classify_csi_u-IsRelease (x ∷ seq) ys r)
      (subst (λ t. Scans t out rest) (sym (drop-append_length (x ∷ seq) ys)) s)

-- In the window, with nothing pending, a key release that comes behind plain text is dropped: the
-- text goes through, and the bytes behind the release are filtered as if it had not been there.
pub filter_input-IsRelease :
    (f : BridgeInputFilter) (text seq ys : Bytes) (now : ℕ)
    → IsActive f now
    → f.pending ≡ []
    → IsPlain text
    → IsRelease seq
    → let r = filter_input f (text ++ (seq ++ ys)) now in
      let without = filter_input f ys now in
      (r.1 ≡ text ++ without.1) × (r.0.pending ≡ without.0.pending)
filter_input-IsRelease f text seq ys now active empty plain key =
    let (out, rest, s) = scan_total ys in
    let here = λ (zs o : Bytes) (t : Scans zs o rest).
      filter_input-Filtered f zs now active (unfold pending_expired in rw empty refl)
        (subst (λ p. Scans (p ++ zs) o rest) (sym empty) t) in
    let r = here _ _ (Scans-plain text plain (Scans-IsRelease seq key s)) in
    let w = here _ _ s in (rw (r.sent, w.sent) refl, r.waits ∙ sym w.waits)
