-- ===== src/Environment/RealShell.antt =====
-- Which program stands in for the managed shell.
use livesh.Prelude.{
  ℕ, ◌≡◌, ◌≢◌, refl, sym, ap, ◌∙◌, subst, Bool, Bool-cases, true, split, filter, ◌==◌, ◌++◌,
  eq_bytes, false, Option, none, some, List, [], ◌∷◌, inl, inr, arith, Bytes, codes, is_empty, trim,
}
use livesh.Prelude.Dict.{lookup}
use livesh.Prelude.Result.{Result, ok}
use livesh.Environment.{
  is_component, last_of, file_name, Variables, non_empty_env, if_filled, is_livesh_binary,
  not_livesh, candidates, first_existing, or_next, resolve_real_shell_with_config,
}

if_filled-eq-some :
    (o : Option Bytes) {v : Bytes} → if_filled o ≡ some v → is_empty (trim v) ≡ false
unfolding if_filled
if_filled-eq-some none h = absurd (ground arith)
if_filled-eq-some (some w) h = ground arith

not_livesh-eq-some :
    (o : Option Bytes) {path : Bytes}
    → not_livesh o ≡ some path
    → (o ≡ some path) × (is_livesh_binary path ≡ false)
unfolding not_livesh
not_livesh-eq-some none h = absurd (ground arith)
not_livesh-eq-some (some w) h = ground arith

-- The fields of a text that ends in a separator and a name.
split-name :
    (sep : ℕ) (dir name : Bytes)
    → split sep name ≡ name ∷ []
    → (f : Bytes) × (fs : List Bytes) × (split sep (dir ++ (sep ∷ name)) ≡ f ∷ (fs ++ (name ∷ [])))
unfolding split
split-name sep [] name e = ([], [], ground (arith, e))
split-name sep (c ∷ dir) name e =
    let (f, fs, shape) = split-name sep dir name e in
    elim (Bool-cases (c == sep)) [
      | inl same ↦ ([], f ∷ fs, ground (arith, same, shape))
      | inr other ↦ (c ∷ f, fs, ground (arith, other, shape))
    ]

last_of-snoc : (parts : List Bytes) (part : Bytes) → last_of (parts ++ (part ∷ [])) ≡ some part
last_of-snoc [] part = refl
last_of-snoc (p ∷ []) part = refl
last_of-snoc (p ∷ q ∷ parts) part = last_of-snoc (q ∷ parts) part

filter-snoc :
    (parts : List Bytes) (part : Bytes)
    → is_component part ≡ true
    → filter is_component (parts ++ (part ∷ [])) ≡ filter is_component parts ++ (part ∷ [])
filter-snoc [] part e = ground (arith, e)
filter-snoc (p ∷ parts) part e = ground (arith, filter-snoc parts part e)

-- The program in whatever directory is recognised.
is_livesh_binary-append : (dir : Bytes) → is_livesh_binary (dir ++ codes "/livesh") ≡ true
unfolding is_livesh_binary file_name split eq_bytes
is_livesh_binary-append dir =
    let (f, fs, shape) = split-name b'/' dir (codes "livesh") refl in
    let last : last_of (filter is_component (split b'/' (dir ++ codes "/livesh")))
        ≡ some (codes "livesh") =
      ap (λ parts. last_of (filter is_component parts)) shape
      ∙ ap last_of (filter-snoc (f ∷ fs) (codes "livesh") refl)
      ∙ last_of-snoc (filter is_component (f ∷ fs)) (codes "livesh") in
    let named : file_name (dir ++ codes "/livesh") ≡ some (codes "livesh") =
      rw (file_name, last) refl in
    rw (is_livesh_binary, named) refl

-- Not the program `livesh`, by its name or in any directory, and more than white space.
abbrev pub IsOther : Bytes → Type 0
IsOther path =
    (path ≢ codes "livesh")
    × ((dir : Bytes) → path ≢ dir ++ codes "/livesh")
    × (is_empty (trim path) ≡ false)

IsOther-filled :
    (path : Bytes) → is_livesh_binary path ≡ false → is_empty (trim path) ≡ false → IsOther path
unfolding is_livesh_binary file_name split eq_bytes
IsOther-filled path other filled = (
  λ e. absurd (ground (arith, other, ap is_livesh_binary e)),
  λ dir e. absurd (ground (arith, other, ap is_livesh_binary e, is_livesh_binary-append dir)),
  filled,
)

abbrev AllOther : List Bytes → Type 0
AllOther [] = Unit
AllOther (path ∷ paths) = IsOther path × AllOther paths

first_existing-AllOther :
    (exists : Bytes → Bool) (paths : List Bytes) {path : Bytes}
    → AllOther paths
    → first_existing exists paths ≡ ok path
    → IsOther path
first_existing-AllOther exists [] a h = absurd (ground arith)
first_existing-AllOther exists (p ∷ paths) {path} a h = elim (Bool-cases (exists p)) [
  | inl e ↦ let same : p ≡ path = ground (arith, e, h) in subst IsOther same a.0
  | inr e ↦ first_existing-AllOther exists paths {path = path} a.1 (ground (arith, e, h))
]

candidates-AllOther : AllOther candidates
unfolding is_livesh_binary trim
candidates-AllOther = (
  IsOther-filled (codes "/bin/zsh") refl refl,
  (IsOther-filled (codes "/bin/bash") refl refl, (IsOther-filled (codes "/bin/sh") refl refl, tt)),
)

or_next-IsOther :
    (o : Option Bytes) (rest : Result Bytes) {path : Bytes}
    → ((p : Bytes) → o ≡ some p → IsOther p)
    → (rest ≡ ok path → IsOther path)
    → or_next o rest ≡ ok path
    → IsOther path
or_next-IsOther none rest first next h = next h
or_next-IsOther (some p) rest {path} first next h =
    let same : p ≡ path = ground arith in subst IsOther same (first p refl)

or_next-none : (o : Option Bytes) (rest : Result Bytes) → o ≡ none → or_next o rest ≡ rest
or_next-none o rest e = rw e refl

-- If `LIVESH_REAL_SHELL` and the shell of the configuration are missing or blank, the shell that is
-- resolved is neither `livesh` nor the `livesh` of any directory, however `SHELL` is set, and it is not
-- blank.
pub resolve_real_shell-IsOther :
    (env : Variables) (exists : Bytes → Bool) (configured : Option Bytes) {path : Bytes}
    → resolve_real_shell_with_config env exists configured ≡ ok path
    → non_empty_env env (codes "LIVESH_REAL_SHELL") ≡ none
    → if_filled configured ≡ none
    → IsOther path
unfolding resolve_real_shell_with_config
resolve_real_shell-IsOther env exists configured {path} h unset unconfigured =
    let user = non_empty_env env (codes "SHELL") in
    let last = first_existing exists candidates in
    let third = or_next (not_livesh user) last in
    let skipped =
      or_next-none (non_empty_env env (codes "LIVESH_REAL_SHELL"))
        (or_next (if_filled configured) third) unset
      ∙ or_next-none (if_filled configured) third unconfigured in
    or_next-IsOther (not_livesh user) last {path = path}
      (λ p e.
        let (is_user, other) = not_livesh-eq-some user {path = p} e in
        IsOther-filled p other (if_filled-eq-some (lookup (codes "SHELL") env) {v = p} is_user))
      (first_existing-AllOther exists candidates {path = path} candidates-AllOther)
      (sym skipped ∙ h)
