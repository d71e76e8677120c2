-- ===== src/Bridge/Csi.antt =====
-- src/bridge.rs, `classify_csi_u` and `is_kitty_release_event`: the reports of kitty's keyboard
-- protocol at the head of some input, `ESC [ parameters u`.
pub mod Stable
use livesh.Prelude.{
  ℕ, suc, ◌+◌, ◌≡◌, Bool, true, false, not, ◌||◌, Option, none, some, List, [], ◌∷◌, ◌++◌, length,
  get_elem?, all, ◌==◌, if◌then◌else◌, Bytes, eq_bytes, codes, split, is_ascii_digit,
}

pub data CsiU : Type 0 where
  release : (len : ℕ) → CsiU
  other : (len : ℕ) → CsiU
  incomplete : CsiU
  not_csi_u : CsiU

abbrev pub escape : ℕ
escape = 0x1b

-- A byte that may stand among the parameters.
abbrev pub is_param : ℕ → Bool
is_param b = is_ascii_digit b || b == b';' || b == b':'

abbrev is_three : Option Bytes → Bool
is_three none = false
is_three (some field) = eq_bytes field (codes "3")

abbrev has_release_modifiers : Option Bytes → Bool
has_release_modifiers none = false
has_release_modifiers (some modifiers) = is_three (get_elem? (split b':' modifiers) 1)

unfoldable pub is_kitty_release_event : Bytes → Bool
unfolding split eq_bytes
is_kitty_release_event params = has_release_modifiers (get_elem? (split b';' params) 1)

-- The loop of `classify_csi_u`: `params` is `bytes[2..i]` and the second argument `bytes[i..]`.
pub params_loop : Bytes → Bytes → CsiU
params_loop params [] = incomplete
params_loop params (b ∷ bs) =
    let rest = params_loop (params ++ (b ∷ [])) bs in
    let len = 2 + length params + 1 in
    if b == b'u'
    then (if is_kitty_release_event params then release len else other len)
    else if is_param b
    then rest
    else not_csi_u

unfoldable pub classify_csi_u : Bytes → CsiU
unfolding params_loop
classify_csi_u [] = not_csi_u
classify_csi_u (c ∷ []) = if not (c == escape) then not_csi_u else incomplete
classify_csi_u (c ∷ d ∷ rest) =
    if not (c == escape)
    then not_csi_u
    else if not (d == b'[')
    then not_csi_u
    else params_loop [] rest

-- A key release as the terminal writes it.
pub record IsRelease (seq : Bytes) : Type 0 where
  pub params : Bytes
  pub shape : seq ≡ escape ∷ b'[' ∷ (params ++ (b'u' ∷ []))
  pub plain : all is_param params ≡ true
  pub released : is_kitty_release_event params ≡ true
