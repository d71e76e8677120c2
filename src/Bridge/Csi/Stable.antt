-- ===== src/Bridge/Csi/Stable.antt =====
-- What a verdict of `classify_csi_u` says of the bytes, and that bytes behind it do not change it.
use livesh.Prelude.{
  ℕ, ◌+◌, ◌≡◌, ◌≢◌, refl, sym, ap, ◌∙◌, Bool, true, false, [], ◌∷◌, ◌++◌, arith, append_assoc,
  append-nil, length, length-append, all, ◌==◌, Bytes, Bool-cases, inl, inr,
}
use livesh.Bridge.Csi.{
  CsiU, release, other, incomplete, escape, is_param, is_kitty_release_event, params_loop,
  classify_csi_u, IsRelease,
}

-- `v` is no request for more input.
abbrev pub IsFinal : CsiU → Type 0
IsFinal v = v ≢ incomplete

params_loop-append :
    (params bs ys : Bytes)
    → IsFinal (params_loop params bs)
    → params_loop params (bs ++ ys) ≡ params_loop params bs
unfolding params_loop
params_loop-append params [] ys final = absurd (final refl)
params_loop-append params (b ∷ bs) ys final =
    ground (arith, params_loop-append (params ++ (b ∷ [])) bs ys)

-- More input behind it changes a verdict only if that was `incomplete`.
pub classify_csi_u-append :
    (xs ys : Bytes)
    → xs ≢ []
    → IsFinal (classify_csi_u xs)
    → classify_csi_u (xs ++ ys) ≡ classify_csi_u xs
unfolding classify_csi_u
classify_csi_u-append [] ys ne final = absurd (ne refl)
classify_csi_u-append (c ∷ []) [] ne final = refl
classify_csi_u-append (c ∷ []) (y ∷ ys) ne final = ground arith
classify_csi_u-append (c ∷ d ∷ xs) ys ne final = ground (arith, params_loop-append [] xs ys)

-- A report is closed: after `more` parameters comes the `u`, `len` counts it all, and `released` says
-- whether it is a release.
pub record Closes (released : Bool) (params bs : Bytes) (len : ℕ) : Type 0 where
  pub more : Bytes
  pub rest : Bytes
  pub shape : bs ≡ more ++ (b'u' ∷ rest)
  pub plain : all is_param more ≡ true
  pub counted : len ≡ 3 + length params + length more
  pub verdict : is_kitty_release_event (params ++ more) ≡ released

abbrev closing : Bool → ℕ → CsiU
closing true len = release len
closing false len = other len

Closes-here :
    (r : Bool) (params bs : Bytes) (b len : ℕ)
    → b ≡ b'u'
    → len ≡ 2 + length params + 1
    → is_kitty_release_event params ≡ r
    → Closes r params (b ∷ bs) len
Closes-here r params bs b len u e k = record {
  more = [];
  rest = bs;
  shape = ap (λ x. x ∷ bs) u;
  plain = refl;
  counted = omega arith;
  verdict = rw append-nil k;
}

Closes-later :
    (r : Bool) (params bs : Bytes) (b len : ℕ)
    → is_param b ≡ true
    → Closes r (params ++ (b ∷ [])) bs len
    → Closes r params (b ∷ bs) len
Closes-later r params bs b len p c = record {
  more = b ∷ c.more;
  rest = c.rest;
  shape = ap (◌∷◌ b) c.shape;
  plain = ground (arith, c.plain);
  counted = omega (arith, c.counted, length-append params (b ∷ []));
  verdict = ap is_kitty_release_event (sym (append_assoc params (b ∷ []) c.more)) ∙ c.verdict;
}

params_loop-Closes :
    (r : Bool) (params bs : Bytes) (len : ℕ)
    → params_loop params bs ≡ closing r len
    → Closes r params bs len
unfolding params_loop
params_loop-Closes r params [] len e = absurd (ground arith)
params_loop-Closes r params (b ∷ bs) len e = elim (Bool-cases (b == b'u')) [
  | inl u ↦ Closes-here r params bs b len (ground arith) (ground arith) (ground arith)
  | inr m ↦
      Closes-later r params bs b len (ground arith)
        (params_loop-Closes r (params ++ (b ∷ [])) bs len (ground arith))
]

-- A closed report at the head of some input, and what stands behind it.
pub record Report (released : Bool) (xs : Bytes) (len : ℕ) : Type 0 where
  pub params : Bytes
  pub rest : Bytes
  pub shape : xs ≡ escape ∷ b'[' ∷ (params ++ (b'u' ∷ rest))
  pub plain : all is_param params ≡ true
  pub counted : len ≡ 3 + length params
  pub verdict : is_kitty_release_event params ≡ released

-- `release` and `other` are said of a complete report at the head, with its length.
pub classify_csi_u-Report :
    (r : Bool) (xs : Bytes) (len : ℕ) → classify_csi_u xs ≡ closing r len → Report r xs len
unfolding classify_csi_u
classify_csi_u-Report r [] len e = absurd (ground arith)
classify_csi_u-Report r (c ∷ []) len e = absurd (ground arith)
classify_csi_u-Report r (c ∷ d ∷ xs) len e =
    let k = params_loop-Closes r [] xs len (ground arith) in
    record {
      params = k.more;
      rest = k.rest;
      shape = ground (arith, k.shape);
      plain = k.plain;
      counted = omega (arith, k.counted);
      verdict = k.verdict;
    }

params_loop-plain :
    (params more ys : Bytes)
    → all is_param more ≡ true
    → is_kitty_release_event (params ++ more) ≡ true
    → params_loop params (more ++ (b'u' ∷ ys)) ≡ release (3 + length params + length more)
unfolding params_loop
params_loop-plain params [] ys p k = ground (arith, ap is_kitty_release_event (append-nil params))
params_loop-plain params (b ∷ more) ys p k = ground (
  arith,
  params_loop-plain (params ++ (b ∷ [])) more ys (ground arith) (rw append_assoc k),
  length-append params (b ∷ []),
)

-- A complete release at the head is recognised, with its length, whatever comes behind it.
pub classify_csi_u-IsRelease :
    (seq ys : Bytes) → IsRelease seq → classify_csi_u (seq ++ ys) ≡ release (length seq)
unfolding classify_csi_u
classify_csi_u-IsRelease seq ys r =
    let found = params_loop-plain [] r.params ys r.plain r.released in
    let e : classify_csi_u ((escape ∷ b'[' ∷ (r.params ++ (b'u' ∷ []))) ++ ys)
        ≡ release (length (escape ∷ b'[' ∷ (r.params ++ (b'u' ∷ [])))) =
      ground
        (arith, found, append_assoc r.params (b'u' ∷ []) ys, length-append r.params (b'u' ∷ [])) in
    rw r.shape e
