-- ===== src/Bridge/InputFilter/Scan.antt =====
-- The loop of `filter_input` as a relation between the input, what goes out and what stays pending.
use livesh.Prelude.{
  ℕ, zero, suc, ◌≤◌, ◌≡◌, refl, sym, ap, ◌∙◌, Bool, true, false, Option, none, some, [], ◌∷◌, ◌++◌,
  arith, append_assoc, append-nil, length, length-append, length-drop, take, drop, take-append-drop,
  take-append_le, drop-append_le, drop-append_length, subst, ◌==◌, Bytes, inl, inr, if◌then◌else◌,
  ◌⊎◌,
}
use livesh.Bridge.Csi.{
  CsiU, release, other, incomplete, not_csi_u, escape, classify_csi_u, IsRelease,
}
use livesh.Bridge.Csi.Stable.{Report, classify_csi_u-Report, classify_csi_u-append}
use livesh.Bridge.InputFilter.{filter_loop}

-- `Scans xs out rest`: from the input `xs` the bytes `out` go through, and `rest` waits for more.
pub data Scans : Bytes → Bytes → Bytes → Type 0 where
  done : Scans [] [] []
  wait : {x : ℕ} {xs : Bytes} → classify_csi_u (x ∷ xs) ≡ incomplete → Scans (x ∷ xs) [] (x ∷ xs)
  discard :
      {x : ℕ} {xs out rest : Bytes} (len : ℕ)
      → classify_csi_u (x ∷ xs) ≡ release len
      → Scans (drop len (x ∷ xs)) out rest
      → Scans (x ∷ xs) out rest
  keep :
      {x : ℕ} {xs out rest : Bytes} (len : ℕ)
      → classify_csi_u (x ∷ xs) ≡ other len
      → Scans (drop len (x ∷ xs)) out rest
      → Scans (x ∷ xs) (take len (x ∷ xs) ++ out) rest
  pass :
      {x : ℕ} {xs out rest : Bytes}
      → classify_csi_u (x ∷ xs) ≡ not_csi_u
      → Scans xs out rest
      → Scans (x ∷ xs) (x ∷ out) rest

-- The length of a report is positive and within the input.
length-Report : {r : Bool} {xs : Bytes} {len : ℕ} → Report r xs len → (3 ≤ len) × (len ≤ length xs)
length-Report r = (
  omega (arith, r.counted),
  omega (arith, r.counted, ap length r.shape, length-append r.params (b'u' ∷ r.rest)),
)

-- Enough input for the report: cutting it off leaves the bytes behind alone.
release_bound :
    (xs : Bytes) (len : ℕ) → classify_csi_u xs ≡ release len → (3 ≤ len) × (len ≤ length xs)
release_bound xs len e = length-Report (classify_csi_u-Report true xs len e)

other_bound : (xs : Bytes) (len : ℕ) → classify_csi_u xs ≡ other len → (3 ≤ len) × (len ≤ length xs)
other_bound xs len e = length-Report (classify_csi_u-Report false xs len e)

abbrev tested : ℕ → Bytes → CsiU
tested b bs = if b == escape then classify_csi_u (b ∷ bs) else not_csi_u

-- The test of the loop for an escape is the first of `classify_csi_u`.
tested-classify_csi_u : (b : ℕ) (bs : Bytes) → tested b bs ≡ classify_csi_u (b ∷ bs)
unfolding classify_csi_u
tested-classify_csi_u b [] = ground arith
tested-classify_csi_u b (c ∷ bs) = ground arith

-- The loop's result for a derivation.
abbrev pub waiting : Bytes → Option Bytes
waiting [] = none
waiting (b ∷ bs) = some (b ∷ bs)

-- The loop computes what the relation says, on any fuel that covers the input.
pub filter_loop-Scans :
    {xs out rest : Bytes} (fuel : ℕ) (before : Bytes)
    → Scans xs out rest
    → length xs ≤ fuel
    → filter_loop fuel xs before ≡ (before ++ out, waiting rest)
unfolding filter_loop
filter_loop-Scans zero before done h = ap (λ o. (o, none)) (sym (append-nil before))
filter_loop-Scans (suc fuel) before done h = ap (λ o. (o, none)) (sym (append-nil before))
filter_loop-Scans zero before (wait e) h = absurd (omega arith)
filter_loop-Scans (suc fuel) before (wait {x} {xs} e) h =
    ground (arith, tested-classify_csi_u x xs, append-nil before)
filter_loop-Scans zero before (discard len e s) h = absurd (omega arith)
filter_loop-Scans (suc fuel) before (discard {x} {xs} len e s) h =
    let short : length (drop len (x ∷ xs)) ≤ fuel =
      omega (arith, release_bound (x ∷ xs) len e, length-drop len (x ∷ xs)) in
    ground (arith, tested-classify_csi_u x xs, filter_loop-Scans fuel before s short)
filter_loop-Scans zero before (keep len e s) h = absurd (omega arith)
filter_loop-Scans (suc fuel) before (keep {x} {xs} {out} len e s) h =
    let short : length (drop len (x ∷ xs)) ≤ fuel =
      omega (arith, other_bound (x ∷ xs) len e, length-drop len (x ∷ xs)) in
    ground (
      arith,
      tested-classify_csi_u x xs,
      filter_loop-Scans fuel (before ++ take len (x ∷ xs)) s short,
      append_assoc before (take len (x ∷ xs)) out,
    )
filter_loop-Scans zero before (pass e s) h = absurd (omega arith)
filter_loop-Scans (suc fuel) before (pass {x} {xs} {out} e s) h = ground (
  arith,
  tested-classify_csi_u x xs,
  filter_loop-Scans fuel (before ++ (x ∷ [])) s (omega arith),
  append_assoc before (x ∷ []) out,
)

abbrev Scanned : Bytes → Type 0
Scanned xs = (out rest : Bytes) × Scans xs out rest

-- One step of a scan, if what stands behind it can be scanned.
scan_step :
    (x : ℕ) (xs : Bytes) (v : CsiU)
    → classify_csi_u (x ∷ xs) ≡ v
    → ((ys : Bytes) → length ys ≤ length xs → Scanned ys)
    → Scanned (x ∷ xs)
scan_step x xs (release len) e later =
    let (out, rest, s) =
      later (drop len (x ∷ xs))
        (omega (arith, release_bound (x ∷ xs) len e, length-drop len (x ∷ xs))) in
    (out, rest, discard len e s)
scan_step x xs (other len) e later =
    let (out, rest, s) =
      later (drop len (x ∷ xs))
        (omega (arith, other_bound (x ∷ xs) len e, length-drop len (x ∷ xs))) in
    (take len (x ∷ xs) ++ out, rest, keep len e s)
scan_step x xs incomplete e later = ([], x ∷ xs, wait e)
scan_step x xs not_csi_u e later =
    let (out, rest, s) = later xs (omega arith) in (x ∷ out, rest, pass e s)

scan_fuel : (fuel : ℕ) (xs : Bytes) → length xs ≤ fuel → Scanned xs
scan_fuel fuel [] h = ([], [], done)
scan_fuel zero (x ∷ xs) h = absurd (omega arith)
scan_fuel (suc fuel) (x ∷ xs) h =
    scan_step x xs (classify_csi_u (x ∷ xs)) refl (λ ys k. scan_fuel fuel ys (omega arith))

-- Every input can be scanned.
pub scan_total : (xs : Bytes) → (out rest : Bytes) × Scans xs out rest
scan_total xs = scan_fuel (length xs) xs (omega arith)

-- What is pending is no complete report: it asks for more, or there is none.
pub Scans-rest :
    {xs out rest : Bytes} → Scans xs out rest → (rest ≡ []) ⊎ (classify_csi_u rest ≡ incomplete)
Scans-rest done = inl refl
Scans-rest (wait e) = inr e
Scans-rest (discard len e s) = Scans-rest s
Scans-rest (keep len e s) = Scans-rest s
Scans-rest (pass e s) = Scans-rest s

-- The scan does not depend on how the input is cut: what waits is scanned again, in front of the
-- bytes that come next.
pub Scans-append :
    {xs out rest out' rest' : Bytes} (ys : Bytes)
    → Scans xs out rest
    → Scans (rest ++ ys) out' rest'
    → Scans (xs ++ ys) (out ++ out') rest'
Scans-append ys done t = t
Scans-append ys (wait e) t = t
Scans-append ys (discard {x} {xs} len e s) t =
    discard len (classify_csi_u-append (x ∷ xs) ys (λ z. cc) (λ z. ground arith) ∙ e)
      (rw (drop-append_le len (x ∷ xs) ys (release_bound (x ∷ xs) len e).1) (Scans-append ys s t))
Scans-append {out' = out'} {rest' = rest'} ys (keep {x} {xs} {out} len e s) t =
    let bound = (other_bound (x ∷ xs) len e).1 in
    let same : take len ((x ∷ xs) ++ ys) ++ (out ++ out') ≡ (take len (x ∷ xs) ++ out) ++ out' =
      rw (take-append_le len (x ∷ xs) ys bound) (sym (append_assoc (take len (x ∷ xs)) out out')) in
    subst (λ o. Scans (x ∷ (xs ++ ys)) o rest') same
      (keep len (classify_csi_u-append (x ∷ xs) ys (λ z. cc) (λ z. ground arith) ∙ e)
        (rw (drop-append_le len (x ∷ xs) ys bound) (Scans-append ys s t)))
Scans-append ys (pass {x} {xs} e s) t =
    pass (classify_csi_u-append (x ∷ xs) ys (λ z. cc) (λ z. ground arith) ∙ e) (Scans-append ys s t)

-- `out` is `xs` without some complete key releases, and with all else.
pub data Removes : Bytes → Bytes → Type 0 where
  nil : Removes [] []
  byte : {xs out : Bytes} (x : ℕ) → Removes xs out → Removes (x ∷ xs) (x ∷ out)
  key_release :
      {xs ys out : Bytes} (seq : Bytes)
      → IsRelease seq
      → xs ≡ seq ++ ys
      → Removes ys out
      → Removes xs out

pub Removes-refl : (xs : Bytes) → Removes xs xs
Removes-refl [] = nil
Removes-refl (x ∷ xs) = byte x (Removes-refl xs)

pub Removes-append_left :
    {ys out : Bytes} (xs : Bytes) → Removes ys out → Removes (xs ++ ys) (xs ++ out)
Removes-append_left [] r = r
Removes-append_left (x ∷ xs) r = byte x (Removes-append_left xs r)

-- A report that is a release is a key release at the head of the input.
pub IsRelease-split :
    (xs : Bytes) (len : ℕ)
    → Report true xs len
    → (seq : Bytes) × IsRelease seq × (xs ≡ seq ++ drop len xs)
IsRelease-split xs len r =
    let seq = escape ∷ b'[' ∷ (r.params ++ (b'u' ∷ [])) in
    let split : xs ≡ seq ++ r.rest =
      r.shape ∙ ap (λ t. escape ∷ b'[' ∷ t) (sym (append_assoc r.params (b'u' ∷ []) r.rest)) in
    let counted : len ≡ length seq = omega (arith, r.counted, length-append r.params (b'u' ∷ [])) in
    let cut : drop len xs ≡ r.rest =
      ap (drop len) split
      ∙ ap (λ n. drop n (seq ++ r.rest)) counted
      ∙ drop-append_length seq r.rest in
    (
      seq,
      record { params = r.params; shape = refl; plain = r.plain; released = r.verdict },
      split ∙ ap (λ t. seq ++ t) (sym cut),
    )

-- Nothing is lost in a scan but complete key releases.
pub Scans-Removes : {xs out rest : Bytes} → Scans xs out rest → Removes xs (out ++ rest)
Scans-Removes done = nil
Scans-Removes (wait {x} {xs} e) = Removes-refl (x ∷ xs)
Scans-Removes (discard {x} {xs} len e s) =
    let (seq, is_release, split) =
      IsRelease-split (x ∷ xs) len (classify_csi_u-Report true (x ∷ xs) len e) in
    key_release seq is_release split (Scans-Removes s)
Scans-Removes {rest = rest} (keep {x} {xs} {out} len e s) =
    subst (λ t. Removes t ((take len (x ∷ xs) ++ out) ++ rest)) (take-append-drop len (x ∷ xs))
      (rw (append_assoc (take len (x ∷ xs)) out rest)
        (Removes-append_left (take len (x ∷ xs)) (Scans-Removes s)))
Scans-Removes (pass {x} e s) = byte x (Scans-Removes s)
