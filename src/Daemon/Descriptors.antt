-- ===== src/Daemon/Descriptors.antt =====
-- src/daemon.rs, `raise_nofile_limit`: the limit on the open files of the daemon.
use livesh.Prelude.{◌≤◌, ℕ, max, Bool, not, leb, if◌then◌else◌, arith}

-- `libc::rlimit`, the limit on open files.
pub record Rlimit : Type 0 where
  pub cur : ℕ
  pub max : ℕ

-- The answer to `setrlimit`, then the limit before the call and the limit asked for.
unfoldable pub set_rlimit : (Rlimit → Bool) → Rlimit → Rlimit → Rlimit
set_rlimit accepts before desired = if accepts desired then desired else before

-- `raise_nofile_limit`, with whether `getrlimit` answers, the target and the limit of the process.
unfoldable pub raise_nofile_limit : (Rlimit → Bool) → Bool → ℕ → Rlimit → Rlimit
unfolding set_rlimit
raise_nofile_limit accepts readable target limit =
    let desired : Rlimit = record { cur = target; max = max limit.max target } in
    let fallback : Rlimit = record { cur = limit.max; max = limit.max } in
    if not readable
    then limit
    else if leb target limit.cur
    then limit
    else if accepts desired
    then desired
    else set_rlimit accepts limit fallback

abbrev pub nofile_target : ℕ
nofile_target = 8192

-- Whatever the system answers, the limit on open files is not lower than before, neither the soft nor
-- the hard one, and the soft limit stays within the hard one.
raise_nofile_limit-grows :
    (accepts : Rlimit → Bool) (readable : Bool) (target : ℕ) (limit : Rlimit)
    → limit.cur ≤ limit.max
    → let r = raise_nofile_limit accepts readable target limit in
      (limit.cur ≤ r.cur) × (limit.max ≤ r.max) × (r.cur ≤ r.max)
unfolding raise_nofile_limit set_rlimit
raise_nofile_limit-grows accepts readable target limit h = ground arith
