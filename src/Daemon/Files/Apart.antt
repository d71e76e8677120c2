-- ===== src/Daemon/Files/Apart.antt =====
-- No two files of a daemon share a path.
use livesh.Prelude.{
  ◌≤◌, ◌≡◌, ◌≢◌, refl, sym, ap, ◌∙◌, false, some, [], ◌∷◌, ◌++◌, arith, Bytes, ℕ, any, ◌==◌,
  eq_bytes, eq_bytes_iff, is_empty, append_assoc, codes, Bool-cases, inl, inr, length,
  if◌then◌else◌,
}
use livesh.Prelude.Separators.{first-injective, last-injective, prefix-injective}
use livesh.Protocol.{ShellId}
use livesh.Protocol.Ids.{IsFileSafe, new, new-IsFileSafe}
use livesh.Paths
use livesh.Paths.{RuntimePaths, below_base, join, starts_with_slash, ends_with_slash}
use livesh.Daemon.Files.{pid_hint_path}

-- The files of a shell.
pub data Kind : Type 0 where
  metadata : Kind
  temporary : Kind
  pid_hint : Kind
  snapshot : Kind
  scrollback : Kind
  events : Kind

abbrev pub file : RuntimePaths → Kind → ShellId → Bytes
file paths metadata id = Paths.metadata paths id
file paths temporary id = Paths.metadata paths id ++ codes ".tmp"
file paths pid_hint id = pid_hint_path paths id
file paths snapshot id = Paths.snapshot paths id
file paths scrollback id = Paths.scrollback paths id
file paths events id = Paths.events paths id

-- What stands in front of a name that is joined to a directory.
abbrev before_name : Bytes → Bytes
before_name base =
    if is_empty base then [] else if ends_with_slash base then base else base ++ codes "/"

join-eq :
    (base name : Bytes) → starts_with_slash name ≡ false → join base name ≡ before_name base ++ name
unfolding join
join-eq base name h = ground (arith, h, append_assoc base (codes "/") name)

ends_with_slash-append :
    (base : Bytes) (c : ℕ) (name : Bytes)
    → ends_with_slash (base ++ (c ∷ name)) ≡ ends_with_slash (c ∷ name)
ends_with_slash-append [] c name = refl
ends_with_slash-append (b ∷ []) c name = refl
ends_with_slash-append (b ∷ d ∷ base) c name = ends_with_slash-append (d ∷ base) c name

is_empty-append : (base : Bytes) (c : ℕ) (d : Bytes) → is_empty (base ++ (c ∷ d)) ≡ false
is_empty-append [] c d = refl
is_empty-append (b ∷ base) c d = refl

-- A file in a directory below the base.
join-join :
    (base : Bytes) (c : ℕ) (d name : Bytes)
    → starts_with_slash (c ∷ d) ≡ false
    → ends_with_slash (c ∷ d) ≡ false
    → starts_with_slash name ≡ false
    → join (join base (c ∷ d)) name ≡ (before_name base ++ (c ∷ d)) ++ (b'/' ∷ name)
join-join base c d name u v w =
    let x = before_name base ++ (c ∷ d) in
    rw (join-eq base (c ∷ d) u, join-eq x name w)
      (ground (
        arith,
        is_empty-append (before_name base) c d,
        ends_with_slash-append (before_name base) c d,
        v,
        append_assoc x (codes "/") name,
      ))

abbrev dir : Kind → Bytes
dir metadata = codes "states"
dir temporary = codes "states"
dir pid_hint = codes "states"
dir snapshot = codes "snapshots"
dir scrollback = codes "scrollback"
dir events = codes "events"

abbrev extension : Kind → Bytes
extension metadata = codes "json"
extension temporary = codes "json.tmp"
extension pid_hint = codes "pid"
extension snapshot = codes "screen"
extension scrollback = codes "ring"
extension events = codes "ring"

-- The kind of a file, from its directory and its extension.
abbrev kind_of : Bytes → Bytes → Kind
unfolding eq_bytes
kind_of d e =
    if eq_bytes e (codes "json")
    then metadata
    else if eq_bytes e (codes "pid")
    then pid_hint
    else if eq_bytes e (codes "screen")
    then snapshot
    else if eq_bytes e (codes "json.tmp")
    then temporary
    else if eq_bytes d (codes "events")
    then events
    else scrollback

kind_of-eq : (k : Kind) → kind_of (dir k) (extension k) ≡ k
unfolding kind_of
kind_of-eq metadata = refl
kind_of-eq temporary = refl
kind_of-eq pid_hint = refl
kind_of-eq snapshot = refl
kind_of-eq scrollback = refl
kind_of-eq events = refl

starts_with_slash-IsFileSafe :
    (id e : Bytes) → IsFileSafe id → 1 ≤ length id → starts_with_slash (id ++ e) ≡ false
starts_with_slash-IsFileSafe [] e safe l = absurd (omega arith)
starts_with_slash-IsFileSafe (c ∷ id) e safe l = ground (arith, safe.0)

metadata-eq :
    (base : Bytes) (id : ShellId)
    → IsFileSafe id
    → 1 ≤ length id
    → Paths.metadata (below_base base) id
      ≡ (before_name base ++ codes "states") ++ (b'/' ∷ (id ++ codes ".json"))
unfolding below_base Paths.metadata
metadata-eq base id safe l =
    join-join base _ _ _ refl refl (starts_with_slash-IsFileSafe id (codes ".json") safe l)

file-eq :
    (base : Bytes) (k : Kind) (id : ShellId)
    → IsFileSafe id
    → 1 ≤ length id
    → file (below_base base) k id
      ≡ (before_name base ++ dir k) ++ (b'/' ∷ (id ++ (b'.' ∷ extension k)))
unfolding below_base Paths.metadata Paths.snapshot Paths.scrollback Paths.events pid_hint_path
file-eq base metadata id safe l = metadata-eq base id safe l
file-eq base temporary id safe l =
    let x = before_name base ++ codes "states" in
    ap (λ p. p ++ codes ".tmp") (metadata-eq base id safe l)
    ∙ append_assoc x (b'/' ∷ (id ++ codes ".json")) (codes ".tmp")
    ∙ ap (λ q. x ++ (b'/' ∷ q)) (append_assoc id (codes ".json") (codes ".tmp"))
file-eq base pid_hint id safe l =
    join-join base _ _ _ refl refl (starts_with_slash-IsFileSafe id (codes ".pid") safe l)
file-eq base snapshot id safe l =
    join-join base _ _ _ refl refl (starts_with_slash-IsFileSafe id (codes ".screen") safe l)
file-eq base scrollback id safe l =
    join-join base _ _ _ refl refl (starts_with_slash-IsFileSafe id (codes ".ring") safe l)
file-eq base events id safe l =
    join-join base _ _ _ refl refl (starts_with_slash-IsFileSafe id (codes ".ring") safe l)

IsFileSafe-no_dot : (id : Bytes) → IsFileSafe id → any (λ x. x == b'.') id ≡ false
IsFileSafe-no_dot [] safe = refl
IsFileSafe-no_dot (c ∷ id) safe = ground (arith, safe.1, IsFileSafe-no_dot id safe.3)

name-no_slash :
    (id e : Bytes)
    → IsFileSafe id
    → any (λ x. x == b'/') e ≡ false
    → any (λ x. x == b'/') (id ++ e) ≡ false
name-no_slash [] e safe h = h
name-no_slash (c ∷ id) e safe h = ground (arith, safe.0, name-no_slash id e safe.3 h)

extension-no_slash : (k : Kind) → any (λ x. x == b'/') (b'.' ∷ extension k) ≡ false
extension-no_slash metadata = refl
extension-no_slash temporary = refl
extension-no_slash pid_hint = refl
extension-no_slash snapshot = refl
extension-no_slash scrollback = refl
extension-no_slash events = refl

pub file-IsFileSafe :
    (base : Bytes) (k l : Kind) (id j : ShellId)
    → IsFileSafe id
    → IsFileSafe j
    → 1 ≤ length id
    → 1 ≤ length j
    → file (below_base base) k id ≡ file (below_base base) l j
    → (k ≡ l) × (id ≡ j)
file-IsFileSafe base k l id j u v m n h =
    let h' = sym (file-eq base k id u m) ∙ h ∙ file-eq base l j v n in
    let (dirs, names) =
      last-injective b'/' (before_name base ++ dir k) (before_name base ++ dir l) _ _
        (name-no_slash id (b'.' ∷ extension k) u (extension-no_slash k))
        (name-no_slash j (b'.' ∷ extension l) v (extension-no_slash l)) h' in
    let (ids, extensions) =
      first-injective b'.' id j _ _ (IsFileSafe-no_dot id u) (IsFileSafe-no_dot j v) names in
    let same = prefix-injective (before_name base) (dir k) (dir l) dirs in
    (sym (kind_of-eq k) ∙ rw (same, extensions) refl ∙ kind_of-eq l, ids)

daemon_json-dir : (k : Kind) (name : Bytes) → codes "daemon.json" ≢ dir k ++ name
daemon_json-dir metadata name e = absurd (ground (arith, e))
daemon_json-dir temporary name e = absurd (ground (arith, e))
daemon_json-dir pid_hint name e = absurd (ground (arith, e))
daemon_json-dir snapshot name e = absurd (ground (arith, e))
daemon_json-dir scrollback name e = absurd (ground (arith, e))
daemon_json-dir events name e = absurd (ground (arith, e))

-- The file about the daemon is none of a shell.
pub daemon_json-file :
    (base : Bytes) (k : Kind) (id : ShellId)
    → IsFileSafe id
    → 1 ≤ length id
    → eq_bytes (below_base base).daemon_json (file (below_base base) k id) ≡ false
unfolding below_base
daemon_json-file base k id safe l =
    let path = file (below_base base) k id in
    let b = before_name base in
    let name = b'/' ∷ (id ++ (b'.' ∷ extension k)) in
    elim (Bool-cases (eq_bytes (below_base base).daemon_json path)) [
      | inl e ↦
          let same =
            sym (join-eq base (codes "daemon.json") refl)
            ∙ (eq_bytes_iff (below_base base).daemon_json path).0 e
            ∙ file-eq base k id safe l
            ∙ append_assoc b (dir k) name in
          absurd (daemon_json-dir k name (prefix-injective b _ _ same))
      | inr e ↦ e
    ]

-- The files of the shells, with the temporary ones, do not share a path, whatever the base is: if two
-- files of shells with valid ids have the same path, they are the same file of the same shell.
pub file-injective :
    (base : Bytes) (k l : Kind) (text other : Bytes) {id j : ShellId}
    → new text ≡ some id
    → new other ≡ some j
    → file (below_base base) k id ≡ file (below_base base) l j
    → (k ≡ l) × (id ≡ j)
file-injective base k l text other {id} {j} u v h =
    let s = new-IsFileSafe text u in
    let t = new-IsFileSafe other v in
    file-IsFileSafe base k l id j (rw s.0 s.1) (rw t.0 t.1) (omega (arith, s.2, ap length s.0))
      (omega (arith, t.2, ap length t.0)) h
