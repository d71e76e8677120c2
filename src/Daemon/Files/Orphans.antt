-- ===== src/Daemon/Files/Orphans.antt =====
-- `remove_orphans`: the files of the live shells stay, those of the others go.
use livesh.Prelude.{
  ◌≤◌, ◌≡◌, refl, ap, Bool, false, not, none, some, List, [], ◌∷◌, ◌++◌, arith, Bytes, codes,
  Bool-cases, inl, inr, eq_bytes, eq_bytes_iff, eq_bytes_refl, any, if◌then◌else◌, ◌&&◌, ◌||◌,
  strip_prefix-append, ◌==◌, length,
}
use livesh.Prelude.Dict.{lookup}
use livesh.Protocol.{ShellId}
use livesh.Protocol.Ids.{IsFileSafe, new, new-IsFileSafe}
use livesh.Daemon.Files.{Files, rsplit_dot, name_in, is_orphan, remove_orphans, remove_listed}
use livesh.Daemon.Os.{Os}

lookup-remove_listed :
    (is_stuck : Bytes → Bool) (dir : Bytes) (live : List Bytes) (extension path : Bytes)
    → (files : Files)
    → lookup path (remove_listed is_stuck dir live extension files) ≡ (
        if is_orphan dir live extension path && not (is_stuck path)
        then none
        else lookup path files)
unfolding remove_listed lookup
lookup-remove_listed is_stuck dir live extension path [] = ground arith
lookup-remove_listed is_stuck dir live extension path ((p, bytes) ∷ files) =
    elim (Bool-cases (eq_bytes p path)) [
      | inl e ↦
          let same : p ≡ path = (eq_bytes_iff p path).0 e in
          let here : is_orphan dir live extension p ≡ is_orphan dir live extension path =
            ap (is_orphan dir live extension) same in
          let sticks : is_stuck p ≡ is_stuck path = ap is_stuck same in
          ground
            (arith, here, sticks, e, lookup-remove_listed is_stuck dir live extension path files)
      | inr e ↦ ground (arith, e, lookup-remove_listed is_stuck dir live extension path files)
    ]

pub lookup-remove_orphans :
    (os : Os) (dir : Bytes) (live : List Bytes) (extension path : Bytes) (files : Files)
    → lookup path (remove_orphans os dir live extension files) ≡ (
        if (os.is_listed dir && is_orphan dir live extension path) && not (os.is_stuck path)
        then none
        else lookup path files)
unfolding remove_orphans
lookup-remove_orphans os dir live extension path files =
    ground (arith, lookup-remove_listed os.is_stuck dir live extension path files)

rsplit_dot-IsFileSafe : (e : Bytes) → IsFileSafe e → rsplit_dot e ≡ none
rsplit_dot-IsFileSafe [] safe = refl
rsplit_dot-IsFileSafe (c ∷ cs) safe = rw (rsplit_dot-IsFileSafe cs safe.3) (ground (arith, safe.1))

rsplit_dot-append : (id e : Bytes) → IsFileSafe e → rsplit_dot (id ++ (b'.' ∷ e)) ≡ some (id, e)
rsplit_dot-append [] e safe = rw (rsplit_dot-IsFileSafe e safe) refl
rsplit_dot-append (c ∷ id) e safe = rw (rsplit_dot-append id e safe) refl

abbrev has_slash : Bytes → Bool
has_slash bs = any (λ c. c == b'/') bs

has_slash-IsFileSafe : (e : Bytes) → IsFileSafe e → has_slash e ≡ false
has_slash-IsFileSafe [] safe = refl
has_slash-IsFileSafe (c ∷ cs) safe = ground (arith, safe.0, has_slash-IsFileSafe cs safe.3)

has_slash-append :
    (id e : Bytes) → IsFileSafe id → IsFileSafe e → has_slash (id ++ (b'.' ∷ e)) ≡ false
has_slash-append [] e u v = ground (arith, has_slash-IsFileSafe e v)
has_slash-append (c ∷ id) e u v = ground (arith, u.0, has_slash-append id e u.3 v)

name_in-append :
    (dir id e : Bytes)
    → IsFileSafe id
    → IsFileSafe e
    → name_in dir ((dir ++ codes "/") ++ (id ++ (b'.' ∷ e))) ≡ some (id ++ (b'.' ∷ e))
unfolding name_in
name_in-append dir id e u v =
    rw
      (
        name_in,
        strip_prefix-append (dir ++ codes "/") (id ++ (b'.' ∷ e)),
        has_slash-append id e u v,
      )
      refl

is_orphan-append :
    (dir id e : Bytes) (live : List Bytes)
    → IsFileSafe id
    → 1 ≤ length id
    → IsFileSafe e
    → is_orphan dir live e ((dir ++ codes "/") ++ (id ++ (b'.' ∷ e)))
      ≡ not (any (λ j. eq_bytes j id) live)
unfolding is_orphan
is_orphan-append dir [] e live u l v = absurd (omega arith)
is_orphan-append dir (c ∷ id) e live u l v =
    rw (is_orphan, name_in-append dir (c ∷ id) e u v, rsplit_dot-append id e v, eq_bytes_refl e)
      refl

-- A sweep of a directory keeps the file of every live shell as it is, and removes the file of every
-- other valid id, `dir/<id>.<extension>` with an extension without dots and separators, if the
-- directory can be read and the file can be removed; it stays otherwise.
pub remove_orphans-live :
    (os : Os) (dir extension : Bytes) (live : List Bytes) (text : Bytes) {id : ShellId}
    → (files : Files) → new text ≡ some id
    → IsFileSafe extension
    → let path = (dir ++ codes "/") ++ (text ++ (b'.' ∷ extension)) in
      lookup path (remove_orphans os dir live extension files) ≡ (
        if any (λ j. eq_bytes j text) live || not (os.is_listed dir) || os.is_stuck path
        then lookup path files
        else none)
remove_orphans-live os dir extension live text files valid safe =
    let shape = new-IsFileSafe text valid in
    let path = (dir ++ codes "/") ++ (text ++ (b'.' ∷ extension)) in
    rw
      (
        lookup-remove_orphans os dir live extension path files,
        is_orphan-append dir text extension live shape.1 (omega (arith, shape.2)) safe,
      )
      (ground arith)
