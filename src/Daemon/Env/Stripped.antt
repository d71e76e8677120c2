-- ===== src/Daemon/Env/Stripped.antt =====
-- The environment of a new shell, key by key.
use livesh.Prelude.{
  ◌≡◌, refl, ap, ◌∙◌, true, false, not, Option, none, some, List, [], ◌∷◌, arith, Bytes, codes,
  Bool-cases, inl, inr, eq_bytes, eq_bytes_iff, any, if◌then◌else◌, is_empty,
}
use livesh.Prelude.Dict.{lookup}
use livesh.Protocol.{ShellId}
use livesh.Daemon.Env.{
  CommandBuilder, matches_strip_prefix, set_env, matching_keys, remove_keys, child_command,
}

-- What the documentation of the command builder says of its environment: `env` sets one variable,
-- `env_remove` removes one, and `cwd` leaves them alone.
pub record IsLawful {C : Type 0} (cb : CommandBuilder C) : Type 0 where
  pub env :
      (c : C) (key value j : Bytes)
      → lookup j (cb.full_env (cb.env c key value))
        ≡ (if eq_bytes key j then some value else lookup j (cb.full_env c))
  pub env_remove :
      (c : C) (key j : Bytes)
      → lookup j (cb.full_env (cb.env_remove c key))
        ≡ (if eq_bytes key j then none else lookup j (cb.full_env c))
  pub cwd : (c : C) (dir : Bytes) → cb.full_env (cb.cwd c dir) ≡ cb.full_env c

-- The last value of a key in the client's environment, or else what the builder has by itself.
abbrev pub last_value : Bytes → List (Bytes × Bytes) → Option Bytes → Option Bytes
last_value j [] own = own
last_value j ((key, value) ∷ env) own =
    last_value j env (if eq_bytes key j then some value else own)

no_prefix : (ps : List Bytes) (j : Bytes) → is_empty ps ≡ true → matches_strip_prefix j ps ≡ false
unfolding matches_strip_prefix
no_prefix [] j h = refl
no_prefix (p ∷ ps) j h = absurd (ground arith)

module _ {C : Type 0} (cb : CommandBuilder C) (laws : IsLawful cb) (prefixes : List Bytes) where
  lookup-set_env :
      (c : C) (env : List (Bytes × Bytes)) (j : Bytes)
      → matches_strip_prefix j prefixes ≡ false
      → lookup j (cb.full_env (set_env cb prefixes c env))
        ≡ last_value j env (lookup j (cb.full_env c))
  unfolding set_env
  lookup-set_env c [] j h = refl
  lookup-set_env c ((key, value) ∷ env) j h =
      let next = (if matches_strip_prefix key prefixes then c else cb.env c key value) in
      let step : lookup j (cb.full_env next)
          ≡ (if eq_bytes key j then some value else lookup j (cb.full_env c)) =
        elim (Bool-cases (matches_strip_prefix key prefixes)) [
          | inl m ↦
              let other : eq_bytes key j ≡ false = ground (arith, eq_bytes_iff key j) in
              rw (m, other) refl
          | inr m ↦ rw m (laws.env c key value j)
        ] in
      lookup-set_env next env j h ∙ ap (last_value j env) step

  lookup-remove_keys :
      (c : C) (keys : List Bytes) (j : Bytes)
      → lookup j (cb.full_env (remove_keys cb c keys))
        ≡ (if any (λ k. eq_bytes k j) keys then none else lookup j (cb.full_env c))
  unfolding remove_keys
  lookup-remove_keys c [] j = refl
  lookup-remove_keys c (key ∷ keys) j =
      ground (arith, lookup-remove_keys (cb.env_remove c key) keys j, laws.env_remove c key j)

  any-matching_keys :
      (j : Bytes) (env : List (Bytes × Bytes))
      → matches_strip_prefix j prefixes ≡ false
      → any (λ k. eq_bytes k j) (matching_keys cb prefixes env) ≡ false
  unfolding matching_keys
  any-matching_keys j [] h = refl
  any-matching_keys j ((key, value) ∷ env) h =
      ground (arith, any-matching_keys j env, eq_bytes_iff key j)

  lookup-matching_keys :
      (j : Bytes) (env : List (Bytes × Bytes))
      → matches_strip_prefix j prefixes ≡ true
      → any (λ k. eq_bytes k j) (matching_keys cb prefixes env) ≡ false
      → lookup j env ≡ none
  unfolding lookup matching_keys
  lookup-matching_keys j [] h n = refl
  lookup-matching_keys j ((key, value) ∷ env) h n =
      ground (arith, lookup-matching_keys j env, eq_bytes_iff key j)

  lookup-stripped :
      (c : C) (j : Bytes)
      → lookup j (cb.full_env (remove_keys cb c (matching_keys cb prefixes (cb.full_env c))))
        ≡ (if matches_strip_prefix j prefixes then none else lookup j (cb.full_env c))
  lookup-stripped c j =
      let keys = matching_keys cb prefixes (cb.full_env c) in
      ground (
        arith,
        lookup-remove_keys c keys j,
        any-matching_keys j (cb.full_env c),
        lookup-matching_keys j (cb.full_env c),
      )

  -- Every variable of a new shell: `LIVESH_SHELL_ID` is the shell's id; another one that has one of
  -- the prefixes to strip is not there, whoever set it; any other has the last value that the client
  -- sent, or else what the builder has by itself.
  pub lookup-child_command :
      (shell_path dir : Bytes) (env : List (Bytes × Bytes)) (id : ShellId) (j : Bytes)
      → lookup j (cb.full_env (child_command cb prefixes shell_path dir env id)) ≡ (
          if eq_bytes (codes "LIVESH_SHELL_ID") j
          then some id
          else if matches_strip_prefix j prefixes
          then none
          else last_value j env (lookup j (cb.full_env (cb.new shell_path))))
  unfolding child_command
  lookup-child_command shell_path dir env id j =
      let start = cb.cwd (cb.new shell_path) dir in
      let cmd = set_env cb prefixes start env in
      let stripped =
        (if not (is_empty prefixes)
          then remove_keys cb cmd (matching_keys cb prefixes (cb.full_env cmd))
          else cmd) in
      ground (
        arith,
        laws.env stripped (codes "LIVESH_SHELL_ID") id j,
        no_prefix prefixes j,
        lookup-stripped cmd j,
        lookup-set_env start env j,
        laws.cwd (cb.new shell_path) dir,
      )
