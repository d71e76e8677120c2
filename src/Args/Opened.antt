-- ===== src/Args/Opened.antt =====
-- The ids that come from a command line.
use livesh.Prelude.{
  ◌≡◌, ◌≢◌, refl, Bool, true, false, some, List, [], ◌∷◌, arith, Bytes, codes, eq_bytes, Bool-cases,
  Option-cases, inl, inr,
}
use livesh.Prelude.Result.{ok, err}
use livesh.Protocol.{ShellId}
use livesh.Protocol.Ids
use livesh.Args.{
  no_options, open_id, Options, checked, plain, last_argument, set_option, parse_loop, parse_livesh,
  parse_arguments,
}

-- The command that a client is told to restore its shell with opens that shell, if the id is valid.
pub parse_livesh-open :
    (id : ShellId)
    → Ids.new id ≡ some id
    → parse_livesh (codes "livesh" ∷ codes "--open" ∷ id ∷ []) ≡ ok (open_id id)
unfolding parse_livesh checked
parse_livesh-open id h = rw (checked, h) refl

checked-open :
    (text : Bytes) {id : ShellId} → checked open_id text ≡ ok (open_id id) → Ids.new id ≡ some id
unfolding checked Ids.new
checked-open text {id} h = elim (Bool-cases (Ids.is_valid_shell_id text)) [
  | inl e ↦ let same : text ≡ id = ground arith in rw (← same) (ground arith)
  | inr e ↦ absurd (ground arith)
]

plain-open : (arg : Bytes) {id : ShellId} → plain arg ≢ some (open_id id)
unfolding plain
plain-open arg h = ground arith

last_argument-open :
    (up : Bool) (arg : Bytes) {id : ShellId} → last_argument up arg ≢ ok (open_id id)
unfolding last_argument plain
last_argument-open up arg h = ground arith

parse_loop-open :
    (up : Bool) (o : Options) (args : List Bytes) {id : ShellId}
    → parse_loop up o args ≡ ok (open_id id)
    → Ids.new id ≡ some id
unfolding parse_loop
parse_loop-open true o [] h = absurd (ground arith)
parse_loop-open false o [] h = absurd (ground arith)
parse_loop-open up o (arg ∷ []) h = absurd (last_argument-open up arg h)
parse_loop-open up o (arg ∷ value ∷ args) {id} h = elim (Option-cases (plain arg)) [
  | inr (mode, e) ↦ absurd (plain-open arg {id = id} (ground arith))
  | inl e ↦ elim (Bool-cases (eq_bytes arg (codes "--open"))) [
    | inl k ↦ checked-open value (ground arith)
    | inr k ↦ elim (Option-cases (set_option up o arg value)) [
      | inl n ↦ absurd (ground arith)
      | inr (err m, n) ↦ absurd (ground arith)
      | inr (ok o', n) ↦ parse_loop-open up o' args (ground arith)
    ]
  ]
]

-- Whatever the command line: a shell that `livesh` is asked to open has a valid id.
pub parse_livesh-eq-open :
    (args : List Bytes) {id : ShellId} → parse_livesh args ≡ ok (open_id id) → Ids.new id ≡ some id
unfolding parse_livesh parse_arguments
parse_livesh-eq-open [] h = parse_loop-open false _ [] h
parse_livesh-eq-open (program ∷ []) h = parse_loop-open false _ [] h
parse_livesh-eq-open (program ∷ arg ∷ args) h = elim (Bool-cases (eq_bytes arg (codes "upgrade"))) [
  | inl e ↦ parse_loop-open true no_options args (ground arith)
  | inr e ↦ parse_loop-open false no_options (arg ∷ args) (ground arith)
]
