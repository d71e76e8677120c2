-- ===== src/Bridge/Title.antt =====
-- src/bridge.rs, the title of the process: `title_head`, `truncate` and `display_cwd`, on ASCII text. A
-- directory is given without a `/` at its end.
use livesh.Prelude.{
  ℕ, ◌-◌, ◌≤◌, ◌||◌, Option, none, some, ◌++◌, arith, is_empty, leb, length, length-append,
  length-take, take, if◌then◌else◌, Bytes, codes, eq_bytes, strip_prefix,
}
use livesh.Protocol.{ShellId}

abbrev pub max_title_name : ℕ
max_title_name = 20

unfoldable pub truncate : Bytes → ℕ → Bytes
truncate s max = if leb (length s) max then s else take (max - 3) s ++ codes "..."

unfoldable pub title_head : (name : Bytes) → ShellId → (default_name : Bytes) → Bytes
unfolding truncate eq_bytes
title_head name id default_name =
    let short_id = take 11 id in
    if is_empty name || eq_bytes name default_name
    then codes "livesh (" ++ (short_id ++ codes ")")
    else codes "livesh ["
      ++ (truncate name max_title_name ++ (codes "] (" ++ (short_id ++ codes ")")))

abbrev below_home : Option Bytes → Bytes → Bytes
below_home none cwd = cwd
below_home (some rest) cwd = codes "~/" ++ rest

abbrev at_home : Option Bytes → Bytes → Bytes
unfolding eq_bytes strip_prefix
at_home none cwd = cwd
at_home (some home) cwd =
    if eq_bytes home cwd then codes "~" else below_home (strip_prefix (home ++ codes "/") cwd) cwd

-- The first argument is the variable `HOME`.
unfoldable pub display_cwd : Option Bytes → Bytes → Bytes
unfolding eq_bytes strip_prefix
display_cwd home cwd = at_home home cwd

length-truncate : (s : Bytes) (max : ℕ) → 3 ≤ max → length (truncate s max) ≤ max
unfolding truncate
length-truncate s max h =
    ground (arith, length-append (take (max - 3) s) (codes "..."), length-take (max - 3) s)

-- However long the name is, the fixed part of the title has at most 44 bytes.
pub length-title_head :
    (name : Bytes) (id : ShellId) (default_name : Bytes)
    → length (title_head name id default_name) ≤ 44
unfolding title_head
length-title_head name id default_name = ground (
  arith,
  length-truncate name 20,
  length-take 11 id,
  length-append (take 11 id) (codes ")"),
  length-append (truncate name 20) (codes "] (" ++ (take 11 id ++ codes ")")),
)
