-- ===== src/Terminal.antt =====
-- src/terminal_model.rs: the screen of a shell. The terminal emulator (the crate vt100) is a
-- parameter: a type of parsers with the operations that the program calls.
use livesh.Prelude.{ℕ, Bool, [], ◌∷◌, ◌++◌, max, if◌then◌else◌, Bytes, codes}

pub record Vt100 (P : Type 0) : Type 0 where
  pub new_parser : (rows cols scrollback : ℕ) → P
  pub feed : P → Bytes → P
  pub resize_screen : P → (rows cols : ℕ) → P
  pub size : P → ℕ × ℕ
  pub contents_formatted : P → Bytes
  pub input_mode_formatted : P → Bytes
  pub alternate_screen : P → Bool

pub record TerminalModel (P : Type 0) : Type 0 where
  pub parser : P

-- `ESC [ ? 1049 l`, `ESC [ H`, `ESC [ 2 J`, `ESC [ 3 J`.
abbrev pub reset_screen : Bytes
reset_screen =
    0x1b ∷ codes "[?1049l" ++ (0x1b ∷ codes "[H" ++ (0x1b ∷ codes "[2J" ++ (0x1b ∷ codes "[3J")))

abbrev pub enter_alternate : Bytes
enter_alternate = 0x1b ∷ codes "[?1049h"

module _ {P : Type 0} (vt : Vt100 P) where
  unfoldable pub new : (rows cols : ℕ) → TerminalModel P
  new rows cols = record { parser = vt.new_parser (max rows 1) (max cols 1) 0 }

  unfoldable pub process : TerminalModel P → Bytes → TerminalModel P
  process t bytes = record { parser = vt.feed t.parser bytes }

  unfoldable pub set_size : TerminalModel P → (rows cols : ℕ) → TerminalModel P
  set_size t rows cols = record { parser = vt.resize_screen t.parser (max rows 1) (max cols 1) }

  unfoldable pub reconstruct : TerminalModel P → Bytes
  reconstruct t =
      (if vt.alternate_screen t.parser then enter_alternate else [])
      ++ (vt.contents_formatted t.parser ++ vt.input_mode_formatted t.parser)

  unfoldable pub snapshot_bytes : TerminalModel P → Bytes
  unfolding reconstruct
  snapshot_bytes t = reset_screen ++ reconstruct t

  unfoldable pub raw_snapshot : TerminalModel P → Bytes
  unfolding reconstruct
  raw_snapshot t = reconstruct t

  unfoldable pub clear : TerminalModel P → TerminalModel P
  clear t = let (rows, cols) = vt.size t.parser in record { parser = vt.new_parser rows cols 0 }
