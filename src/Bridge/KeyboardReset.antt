-- ===== src/Bridge/KeyboardReset.antt =====
-- src/bridge.rs: the sequences by which an application gives the keyboard back, in the output that
-- the client paints, and `observe_output`, which opens the filter's window on them.
pub mod Detect
use Prim.Native.Nat.{bit_and}
use livesh.Prelude.{
  ℕ, zero, suc, ◌+◌, ◌-◌, ◌*◌, ◌^◌, Bool, true, false, not, ◌&&◌, ◌||◌, Option, none, some, List,
  [], ◌∷◌, ◌++◌, length, take, drop, last, any, all, is_empty, get_elem?, ltb, ◌==◌, if◌then◌else◌,
  Bytes, split, is_ascii_digit,
}
use livesh.Bridge.Csi.{escape}
use livesh.Bridge.InputFilter.{BridgeInputFilter, stale_key_release_suppression}

abbrev pub max_output_reset_prefix : ℕ
max_output_reset_prefix = 64

-- `KEYBOARD_REPORT_EVENTS | KEYBOARD_REPORT_ALL_KEYS`.
abbrev keyboard_report_flags : ℕ
keyboard_report_flags = 0b1010

-- The value of a text of digits, onto what was read before.
abbrev decimal : ℕ → Bytes → ℕ
decimal n [] = n
decimal n (b ∷ bs) = decimal (n * 10 + (b - b'0')) bs

-- A value past `u32::MAX` does not parse.
pub parse_ascii_u32 : Bytes → Option ℕ
parse_ascii_u32 bytes =
    if is_empty bytes || not (all is_ascii_digit bytes)
    then none
    else if ltb (decimal 0 bytes) (2 ^ 32)
    then some (decimal 0 bytes)
    else none

abbrev parsed : Option Bytes → ℕ → ℕ
unfolding parse_ascii_u32
parsed none default = default
parsed (some field) default = elim (parse_ascii_u32 field) [ none ↦ default | some n ↦ n ]

-- `position(|b| *b == b'u')`, as the bytes before it.
abbrev pub before_u : Bytes → Option Bytes
before_u [] = none
before_u (b ∷ bs) =
    let rest = before_u bs in
    if b == b'u' then some [] else elim rest [ none ↦ none | some p ↦ some (b ∷ p) ]

abbrev pub is_digit_or_semicolon : ℕ → Bool
is_digit_or_semicolon b = is_ascii_digit b || b == b';'

pub resets_by_mode : ℕ → ℕ → Bool
resets_by_mode flags mode =
    if mode == 1
    then bit_and flags keyboard_report_flags == 0
    else if mode == 3
    then not (bit_and flags keyboard_report_flags == 0)
    else false

pub check_params : Option Bytes → Bool
unfolding resets_by_mode split parse_ascii_u32
check_params none = false
check_params (some params) =
    if any (λ b. not (is_digit_or_semicolon b)) params
    then false
    else let fields = split b';' params in
      resets_by_mode (parsed (get_elem? fields 0) 0) (parsed (get_elem? fields 1) 1)

unfoldable pub direct_keyboard_protocol_reset : Bytes → Bool
unfolding check_params
direct_keyboard_protocol_reset bytes = check_params (before_u bytes)

-- `while j < bytes.len() && bytes[j].is_ascii_digit()`, and the test for `u` behind it.
pub digits_then_u : Bytes → Bool
digits_then_u [] = false
digits_then_u (b ∷ bs) = let rest = digits_then_u bs in if is_ascii_digit b then rest else b == b'u'

-- The tests of one round of `output_resets_kitty_keyboard_protocol`, at an index `i`.
pub resets_here : ℕ → ℕ → ℕ → Bytes → Bool
unfolding digits_then_u direct_keyboard_protocol_reset
resets_here a b c rest =
    if a == escape && b == b'['
    then (if c == b'<'
        then digits_then_u rest
        else if c == b'='
        then direct_keyboard_protocol_reset rest
        else false)
    else false

unfoldable pub output_resets_kitty_keyboard_protocol : Bytes → Bool
unfolding resets_here
output_resets_kitty_keyboard_protocol (a ∷ b ∷ c ∷ rest) =
    resets_here a b c rest || output_resets_kitty_keyboard_protocol (b ∷ c ∷ rest)
output_resets_kitty_keyboard_protocol _ = false

unfoldable pub is_keyboard_reset_prefix : Bytes → Bool
is_keyboard_reset_prefix [] = false
is_keyboard_reset_prefix (a ∷ []) = a == escape
is_keyboard_reset_prefix (a ∷ b ∷ []) = a == escape && b == b'['
is_keyboard_reset_prefix (a ∷ b ∷ c ∷ rest) =
    a == escape
    && b == b'['
    && ((c == b'<' && all is_ascii_digit rest) || (c == b'=' && all is_digit_or_semicolon rest))

-- The first suffix that may be the beginning of a reset.
pub first_prefix : Bytes → Bytes
first_prefix [] = []
first_prefix (b ∷ bs) =
    let rest = first_prefix bs in if is_keyboard_reset_prefix (b ∷ bs) then b ∷ bs else rest

unfoldable pub trailing_keyboard_reset_prefix : Bytes → Bytes
unfolding first_prefix is_keyboard_reset_prefix
trailing_keyboard_reset_prefix bytes = first_prefix (last max_output_reset_prefix bytes)

unfoldable pub take_output_pending_then : BridgeInputFilter → Bytes → BridgeInputFilter × Bytes
take_output_pending_then f bytes =
    if is_empty f.output_pending
    then (f, bytes)
    else (record f { output_pending = [] }, f.output_pending ++ bytes)

unfoldable pub observe_output : BridgeInputFilter → Bytes → ℕ → BridgeInputFilter
unfolding take_output_pending_then output_resets_kitty_keyboard_protocol
    trailing_keyboard_reset_prefix
observe_output f bytes now =
    let (g, input) = take_output_pending_then f bytes in
    let h =
      (if output_resets_kitty_keyboard_protocol input
        then record g { stale_release_until = some (now + stale_key_release_suppression) }
        else g) in
    record h { output_pending = trailing_keyboard_reset_prefix input }
