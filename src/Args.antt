-- ===== src/Args.antt =====
-- src/args.rs: the command lines of `livesh` and `liveshctl`. An argument is its text; one that is not
-- UTF-8 is not modelled.
pub mod Opened
use livesh.Prelude.{
  ℕ, ◌+◌, ◌*◌, ◌-◌, Bool, true, false, not, ◌||◌, ◌&&◌, Option, none, some, List, [], ◌∷◌, ◌++◌,
  if◌then◌else◌, leb, ltb, parse_bounded, Bytes, codes, eq_bytes,
}
use livesh.Prelude.Result.{Result, ok, err}
use livesh.Protocol.{ShellId}
use livesh.Protocol.Ids

-- A number of `i32`: whether it is negative, and how far from 0.
abbrev pub Int32 : Type 0
Int32 = Bool × ℕ

pub data LiveshMode : Type 0 where
  new : (name : Option Bytes) (state_json_fd : Option Int32) (cwd : Option Bytes) → LiveshMode
  upgrade : (name cwd : Option Bytes) → LiveshMode
  open_id : ShellId → LiveshMode
  real : LiveshMode
  help : LiveshMode
  version : LiveshMode

pub data LiveshctlMode : Type 0 where
  list : (json : Bool) → LiveshctlMode
  rename : (id : ShellId) (name : Bytes) → LiveshctlMode
  kill : (id : ShellId) → LiveshctlMode
  gc : LiveshctlMode
  status : LiveshctlMode
  upgrade_daemon : (binary : Option Bytes) → LiveshctlMode
  help : LiveshctlMode
  version : LiveshctlMode

abbrev signed : Bool → Option ℕ → Option Int32
signed negative none = none
signed negative (some n) = some (negative, n)

-- `parse::<i32>`
abbrev pub parse_i32 : Bytes → Option Int32
parse_i32 [] = none
parse_i32 (c ∷ cs) =
    if leb c b'-' && leb b'-' c
    then signed true (parse_bounded 2147483648 cs)
    else if leb c b'+' && leb b'+' c
    then signed false (parse_bounded 2147483647 cs)
    else signed false (parse_bounded 2147483647 (c ∷ cs))

-- The variables of `parse_livesh`.
pub record Options : Type 0 where
  pub name : Option Bytes
  pub state_json_fd : Option Int32
  pub cwd : Option Bytes

abbrev pub no_options : Options
no_options = record { name = none; state_json_fd = none; cwd = none }

-- What stands behind the loop.
abbrev finish : Bool → Options → LiveshMode
finish true o = upgrade o.name o.cwd
finish false o = new o.name o.state_json_fd o.cwd

abbrev unknown {ℓ} : {A : Type ℓ} → Bytes → Result A
unknown arg = err (codes "unknown livesh argument: " ++ arg)

unfoldable pub checked {ℓ} : {A : Type ℓ} → (ShellId → A) → Bytes → Result A
unfolding Ids.new
checked mode text = elim (Ids.new text) [
  | none ↦ err (codes "invalid shell id: " ++ text)
  | some id ↦ ok (mode id)
]

-- An argument that asks for no value.
unfoldable pub plain : Bytes → Option LiveshMode
unfolding eq_bytes
plain arg =
    if eq_bytes arg (codes "--help") || eq_bytes arg (codes "-h")
    then some help
    else if eq_bytes arg (codes "--version") || eq_bytes arg (codes "-V")
    then some version
    else if eq_bytes arg (codes "--real")
    then some real
    else none

-- The last argument, where one that asks for a value has none.
unfoldable pub last_argument : Bool → Bytes → Result LiveshMode
unfolding eq_bytes plain
last_argument up arg = elim (plain arg) [
  | some mode ↦ ok mode
  | none ↦
      if eq_bytes arg (codes "--open")
      then err (codes "--open requires a shell id")
      else if eq_bytes arg (codes "--name")
      then err (codes "--name requires a value")
      else if eq_bytes arg (codes "--state-json-fd") && not up
      then err (codes "--state-json-fd requires a file descriptor")
      else if eq_bytes arg (codes "--cwd")
      then err (codes "--cwd requires a directory path")
      else unknown arg
]

abbrev with_fd : Option Int32 → Options → Option Options
with_fd none o = none
with_fd (some fd) o = some (record o { state_json_fd = some fd })

-- The options behind an argument with its value: `none` if it is not one of them.
unfoldable pub set_option : Bool → Options → (arg value : Bytes) → Option (Result Options)
unfolding eq_bytes
set_option up o arg value =
    if eq_bytes arg (codes "--name")
    then some (ok (record o { name = some value }))
    else if eq_bytes arg (codes "--state-json-fd") && not up
    then some (elim (with_fd (parse_i32 value) o) [
      | none ↦ err (codes "invalid --state-json-fd value")
      | some o' ↦ ok o'
    ])
    else if eq_bytes arg (codes "--cwd")
    then some (ok (record o { cwd = some value }))
    else none

-- The loop over the arguments.
unfoldable pub parse_loop : Bool → Options → List Bytes → Result LiveshMode
unfolding eq_bytes plain last_argument checked set_option
parse_loop up o [] = ok (finish up o)
parse_loop up o (arg ∷ []) = last_argument up arg
parse_loop up o (arg ∷ value ∷ args) = elim (plain arg) [
  | some mode ↦ ok mode
  | none ↦
      if eq_bytes arg (codes "--open")
      then checked open_id value
      else elim (set_option up o arg value) [
        | none ↦ unknown arg
        | some (err e) ↦ err e
        | some (ok o') ↦ parse_loop up o' args
      ]
]

-- The arguments behind the program's name.
unfoldable pub parse_arguments : List Bytes → Result LiveshMode
unfolding parse_loop eq_bytes
parse_arguments [] = parse_loop false no_options []
parse_arguments (arg ∷ args) =
    if eq_bytes arg (codes "upgrade")
    then parse_loop true no_options args
    else parse_loop false no_options (arg ∷ args)

unfoldable pub parse_livesh : List Bytes → Result LiveshMode
unfolding parse_arguments
parse_livesh [] = parse_arguments []
parse_livesh (program ∷ args) = parse_arguments args

abbrev is_json : List Bytes → Bool
unfolding eq_bytes
is_json [] = false
is_json (arg ∷ args) = eq_bytes arg (codes "--json")

abbrev pub first {ℓ} : {A : Type ℓ} → List A → Option A
first [] = none
first (x ∷ xs) = some x

abbrev parse_rename : List Bytes → Result LiveshctlMode
unfolding checked
parse_rename [] = err (codes "rename requires a shell id")
parse_rename (id ∷ []) = err (codes "rename requires a new name")
parse_rename (id ∷ name ∷ args) = checked (λ id'. rename id' name) id

abbrev parse_kill : List Bytes → Result LiveshctlMode
unfolding checked
parse_kill [] = err (codes "kill requires a shell id")
parse_kill (id ∷ args) = checked kill id

abbrev parse_command : Bytes → List Bytes → Result LiveshctlMode
unfolding eq_bytes is_json parse_rename parse_kill
parse_command cmd args =
    if eq_bytes cmd (codes "--help") || eq_bytes cmd (codes "-h") || eq_bytes cmd (codes "help")
    then ok help
    else if eq_bytes cmd (codes "--version")
        || eq_bytes cmd (codes "-V")
        || eq_bytes cmd (codes "version")
    then ok version
    else if eq_bytes cmd (codes "list")
    then ok (list (is_json args))
    else if eq_bytes cmd (codes "rename")
    then parse_rename args
    else if eq_bytes cmd (codes "kill")
    then parse_kill args
    else if eq_bytes cmd (codes "gc")
    then ok gc
    else if eq_bytes cmd (codes "status")
    then ok status
    else if eq_bytes cmd (codes "upgrade-daemon")
    then ok (upgrade_daemon (first args))
    else err (codes "unknown liveshctl command: " ++ cmd)

unfoldable pub parse_liveshctl : List Bytes → Result LiveshctlMode
unfolding parse_command
parse_liveshctl [] = ok help
parse_liveshctl (program ∷ []) = ok help
parse_liveshctl (program ∷ cmd ∷ args) = parse_command cmd args
