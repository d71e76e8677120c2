-- ===== src/Config.antt =====
-- src/config.rs: the configuration and its file. The text of the file, or its absence, is an
-- argument.
pub mod Comments
use livesh.Prelude.{
  ℕ, ◌-◌, ◌^◌, Bool, true, false, Option, none, some, List, [], ◌∷◌, map, is_empty, if◌then◌else◌,
  ◌&&◌, Bytes, codes, eq_bytes, split, strip_prefix, strip_last, split_once, before, trim,
  parse_bounded,
}
use livesh.Prelude.Result.{Result, ok, err}
use livesh.Limits.{Limits, default_limits}

pub record Config : Type 0 where
  pub default_name : Bytes
  pub real_shell : Bytes
  pub limits : Limits
  pub cleanup_lost_on_startup : Bool
  pub detached_idle_ttl_secs : ℕ
  pub single_attached_client : Bool
  pub open_steals_existing_attach : Bool

-- `Config::default`
unfoldable pub default_config : Config
default_config = record {
  default_name = codes "shell";
  real_shell = [];
  limits = default_limits;
  cleanup_lost_on_startup = true;
  detached_idle_ttl_secs = 0;
  single_attached_client = true;
  open_steals_existing_attach = true;
}

unquoted : Bytes → Option Bytes → Bytes
unquoted value none = value
unquoted value (some rest) = elim (strip_last b'"' rest) [ none ↦ value | some text ↦ text ]

unfoldable pub parse_string : Bytes → Bytes
unfolding unquoted strip_prefix
parse_string value = unquoted value (strip_prefix (b'"' ∷ []) value)

abbrev or_else {ℓ} : {A : Type ℓ} → Option A → A → A
or_else none x = x
or_else (some y) x = y

-- `parse::<usize>` and `parse::<u64>`, on a machine of 64 bits.
unfoldable pub parse_u64 : Bytes → Option ℕ
unfolding strip_prefix
parse_u64 value = elim (strip_prefix (codes "+") value) [
  | none ↦ parse_bounded (2 ^ 64 - 1) value
  | some digits ↦ parse_bounded (2 ^ 64 - 1) digits
]

unfoldable pub assign_usize : Bytes → ℕ → ℕ
unfolding parse_u64
assign_usize value target = or_else (parse_u64 value) target

unfoldable pub assign_bool : Bytes → Bool → Bool
unfolding eq_bytes
assign_bool value target =
    if eq_bytes value (codes "true")
    then true
    else if eq_bytes value (codes "false")
    then false
    else target

unfoldable pub assign_limit : Bytes → Bytes → Limits → Limits
unfolding assign_usize eq_bytes
assign_limit key value l =
    if eq_bytes key (codes "max_shells")
    then record l { max_shells = assign_usize value l.max_shells }
    else if eq_bytes key (codes "scrollback_lines_per_shell")
    then record l { scrollback_lines_per_shell = assign_usize value l.scrollback_lines_per_shell }
    else if eq_bytes key (codes "scrollback_bytes_per_shell")
    then record l { scrollback_bytes_per_shell = assign_usize value l.scrollback_bytes_per_shell }
    else if eq_bytes key (codes "event_ring_bytes_per_shell")
    then record l { event_ring_bytes_per_shell = assign_usize value l.event_ring_bytes_per_shell }
    else if eq_bytes key (codes "snapshot_bytes_per_shell")
    then record l { snapshot_bytes_per_shell = assign_usize value l.snapshot_bytes_per_shell }
    else if eq_bytes key (codes "global_runtime_bytes")
    then record l { global_runtime_bytes = assign_usize value l.global_runtime_bytes }
    else l

-- The match on the section and the key.
unfoldable pub assign : Bytes → Bytes → Bytes → Config → Config
unfolding assign_limit assign_bool parse_string parse_u64 eq_bytes
assign section key value c =
    if eq_bytes section (codes "shell") && eq_bytes key (codes "default_name")
    then record c { default_name = parse_string value }
    else if eq_bytes section (codes "shell") && eq_bytes key (codes "real_shell")
    then record c { real_shell = parse_string value }
    else if eq_bytes section (codes "limits")
    then record c { limits = assign_limit key value c.limits }
    else if eq_bytes section (codes "gc") && eq_bytes key (codes "cleanup_lost_on_startup")
    then record c { cleanup_lost_on_startup = assign_bool value c.cleanup_lost_on_startup }
    else if eq_bytes section (codes "gc") && eq_bytes key (codes "detached_idle_ttl_secs")
    then record c { detached_idle_ttl_secs = or_else (parse_u64 value) c.detached_idle_ttl_secs }
    else if eq_bytes section (codes "attach") && eq_bytes key (codes "single_attached_client")
    then record c { single_attached_client = assign_bool value c.single_attached_client }
    else if eq_bytes section (codes "attach") && eq_bytes key (codes "open_steals_existing_attach")
    then record c { open_steals_existing_attach = assign_bool value c.open_steals_existing_attach }
    else c

-- The variables of `parse_config`: the section and the configuration.
abbrev pub Parsing : Type 0
Parsing = Bytes × Config

-- The text between the brackets of a section's line.
abbrev section_name : Option Bytes → Option Bytes
section_name none = none
section_name (some rest) = strip_last b']' rest

key_value : Option (Bytes × Bytes) → Parsing → Parsing
unfolding trim assign
key_value none p = p
key_value (some (key, value)) (section, c) = (section, assign section (trim key) (trim value) c)

-- The body of the loop, on a line without its comment.
unfoldable pub parse_stripped : Bytes → Parsing → Parsing
unfolding key_value trim strip_prefix
parse_stripped line (section, c) =
    if is_empty line then (section, c) else elim (section_name (strip_prefix (codes "[") line)) [
      | some name ↦ (trim name, c)
      | none ↦ key_value (split_once b'=' line) (section, c)
    ]

unfoldable pub parse_line : Bytes → Parsing → Parsing
unfolding parse_stripped trim before
parse_line raw p = parse_stripped (trim (before b'#' raw)) p

pub parse_lines : List Bytes → Parsing → Parsing
unfolding parse_line
parse_lines [] p = p
parse_lines (raw ∷ lines) p = parse_lines lines (parse_line raw p)

-- The lines are those between the line feeds: a carriage return before one, and an empty line at the
-- end, which `lines` drops, are trimmed and skipped here.
unfoldable pub parse_config : Bytes → Config
unfolding parse_lines split
parse_config text = (parse_lines (split b'\n' text) ([], default_config)).1

-- `Config::load`, with the file's text, its absence, or the error of reading it.
unfoldable pub load : Result (Option Bytes) → Result Config
unfolding parse_config
load (err e) = err e
load (ok none) = ok default_config
load (ok (some text)) = ok (parse_config text)
