-- ===== src/Daemon/Env.antt =====
-- src/daemon.rs, `matches_strip_prefix` and the environment of a new shell in `create_shell`. The
-- command builder (the crate portable-pty) is a parameter.
pub mod Stripped
use livesh.Prelude.{
  ℕ, Bool, true, false, not, ◌&&◌, List, [], ◌∷◌, ◌++◌, any, is_empty, if◌then◌else◌, Bytes, codes,
  starts_with,
}
use livesh.Protocol.{ShellId}

pub record CommandBuilder (C : Type 0) : Type 0 where
  pub new : Bytes → C
  pub cwd : C → Bytes → C
  pub env : C → Bytes → Bytes → C
  pub env_remove : C → Bytes → C
  pub full_env : C → List (Bytes × Bytes)

unfoldable pub matches_strip_prefix : Bytes → List Bytes → Bool
unfolding starts_with
matches_strip_prefix key prefixes = any (λ p. not (is_empty p) && starts_with p key) prefixes

module _ {C : Type 0} (cb : CommandBuilder C) where
  -- The client's variables, without those that match.
  pub set_env : List Bytes → C → List (Bytes × Bytes) → C
  set_env prefixes cmd [] = cmd
  set_env prefixes cmd ((key, value) ∷ env) =
      set_env prefixes (if matches_strip_prefix key prefixes then cmd else cb.env cmd key value) env

  -- `to_remove`: the matching keys of all that the child would get.
  abbrev pub matching_keys : List Bytes → List (Bytes × Bytes) → List Bytes
  unfolding matches_strip_prefix
  matching_keys prefixes [] = []
  matching_keys prefixes ((key, value) ∷ env) =
      let rest = matching_keys prefixes env in
      if matches_strip_prefix key prefixes then key ∷ rest else rest

  pub remove_keys : C → List Bytes → C
  remove_keys cmd [] = cmd
  remove_keys cmd (key ∷ keys) = remove_keys (cb.env_remove cmd key) keys

  unfoldable pub child_command :
      List Bytes → (shell_path dir : Bytes) → List (Bytes × Bytes) → ShellId → C
  unfolding set_env remove_keys matches_strip_prefix
  child_command prefixes shell_path dir env id =
      let cmd = set_env prefixes (cb.cwd (cb.new shell_path) dir) env in
      let stripped =
        (if not (is_empty prefixes)
          then remove_keys cmd (matching_keys prefixes (cb.full_env cmd))
          else cmd) in
      cb.env stripped (codes "LIVESH_SHELL_ID") id
