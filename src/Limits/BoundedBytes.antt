-- ===== src/Limits/BoundedBytes.antt =====
-- src/limits.rs, `BoundedBytes`: a buffer of the most recent bytes.
pub mod History
use livesh.Prelude.{
  ℕ, ◌-◌, Bool, [], ◌++◌, length, drop, is_empty, ltb, leb, ◌==◌, if◌then◌else◌, Bytes,
}

pub record BoundedBytes : Type 0 where
  pub max_bytes : ℕ
  pub bytes : Bytes

unfoldable pub new : ℕ → BoundedBytes
new max_bytes = record { max_bytes = max_bytes; bytes = [] }

unfoldable pub append : BoundedBytes → Bytes → BoundedBytes
append b chunk =
    if b.max_bytes == 0
    then record b { bytes = [] }
    else if leb b.max_bytes (length chunk)
    then record b { bytes = drop (length chunk - b.max_bytes) chunk }
    else let extended = b.bytes ++ chunk in
      let overflow = length extended - b.max_bytes in
      if ltb 0 overflow
      then record b { bytes = drop overflow extended }
      else record b { bytes = extended }

pub len : BoundedBytes → ℕ
len b = length b.bytes

unfoldable pub clear : BoundedBytes → BoundedBytes
clear b = record b { bytes = [] }
