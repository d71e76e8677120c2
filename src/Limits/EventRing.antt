-- ===== src/Limits/EventRing.antt =====
-- src/limits.rs, `EventRing`: the most recent output events of a shell, bounded by their bytes.
-- A `VecDeque` is a list, its front first.
pub mod Bounds
use livesh.Prelude.{
  ℕ, ◌+◌, ◌-◌, List, [], ◌∷◌, ◌++◌, map, length, drop, filter, ltb, ◌==◌, if◌then◌else◌, Bytes,
}

abbrev pub Event : Type 0
Event = ℕ × Bytes

pub record EventRing : Type 0 where
  pub max_bytes : ℕ
  pub total_bytes : ℕ
  pub events : List Event

unfoldable pub new : ℕ → EventRing
new max_bytes = record { max_bytes = max_bytes; total_bytes = 0; events = [] }

-- The loop of `EventRing::prune` over `total_bytes` and `events`.
pub prune_loop : ℕ → ℕ → List Event → ℕ × List Event
prune_loop max_bytes total [] = if ltb max_bytes total then (0, []) else (total, [])
prune_loop max_bytes total (e ∷ es) =
    let rest = prune_loop max_bytes (total - length (e.1)) es in
    if ltb max_bytes total then rest else (total, e ∷ es)

unfoldable pub prune : EventRing → EventRing
unfolding prune_loop
prune r =
    let (total, events) = prune_loop r.max_bytes r.total_bytes r.events in
    record r { total_bytes = total; events = events }

-- The part of a chunk that `append` keeps.
abbrev pub clip : ℕ → Bytes → Bytes
clip max_bytes bytes =
    if ltb max_bytes (length bytes) then drop (length bytes - max_bytes) bytes else bytes

unfoldable pub append : EventRing → ℕ → Bytes → EventRing
unfolding prune
append r seq bytes =
    if r.max_bytes == 0
    then record r { events = []; total_bytes = 0 }
    else let bytes' = clip r.max_bytes bytes in
      prune (record r {
        total_bytes = r.total_bytes + length bytes';
        events = r.events ++ ((seq, bytes') ∷ []);
      })

unfoldable pub after : EventRing → ℕ → List Event
after r seq = filter (λ e. ltb seq e.0) r.events

-- The bytes of all events, in their order.
abbrev pub flatten : List Event → Bytes
flatten [] = []
flatten (e ∷ es) = e.1 ++ flatten es

unfoldable pub bytes : EventRing → Bytes
bytes r = flatten r.events

unfoldable pub clear : EventRing → EventRing
clear r = record r { events = []; total_bytes = 0 }
