-- ===== src/Daemon/Shell/Live.antt =====
-- The invariant of a registered shell, and that every method keeps it.
use livesh.Prelude.{
  ℕ, ◌≤◌, ◌≡◌, refl, ap, ◌∙◌, Bool, Option, none, some, ◌++◌, arith, length, Bytes, length-last,
  Bool-cases, inl, inr,
}
use livesh.Protocol.{ShellId, AttachId, running}
use livesh.Limits.{Limits}
use livesh.Limits.BoundedBytes
use livesh.Limits.BoundedBytes.{BoundedBytes}
use livesh.Limits.BoundedBytes.History.{bytes-append, max_bytes-append}
use livesh.Limits.EventRing
use livesh.Limits.EventRing.{EventRing}
use livesh.Limits.EventRing.Bounds.{IsValid, append-IsValid, max_bytes-append as max_events-append}
use livesh.Terminal.{Vt100}
use livesh.Daemon.Os.{Os}
use livesh.Daemon.Shell
use livesh.Daemon.Shell.{ShellState, Attach, attach_fresh, attach_to}

-- The history is within its limits: the scrollback and the event log are bounded by `limits`, and
-- the log's count of its bytes is right.
pub record IsBounded (limits : Limits) (b : BoundedBytes) (r : EventRing) : Type 0 where
  pub scrollback : length b.bytes ≤ limits.scrollback_bytes_per_shell
  pub scrollback_max : b.max_bytes ≡ limits.scrollback_bytes_per_shell
  pub events : IsValid r
  pub events_max : r.max_bytes ≡ limits.event_ring_bytes_per_shell

-- A shell that the registry holds under `id`.
pub record IsLive {P : Type 0} (limits : Limits) (id : ShellId) (s : ShellState P) : Type 0 where
  pub same_id : s.id ≡ id
  pub is_running : s.status ≡ running
  pub is_open : (fd : ℕ) × (s.master ≡ some fd)
  pub bounded : IsBounded limits s.scrollback s.events

append-IsBounded :
    (limits : Limits) (b : BoundedBytes) (r : EventRing) (seq : ℕ) (bytes : Bytes)
    → IsBounded limits b r
    → IsBounded limits (BoundedBytes.append b bytes) (EventRing.append r seq bytes)
append-IsBounded limits b r seq bytes v = record {
  scrollback = omega (
    arith,
    v.scrollback_max,
    ap length (bytes-append b bytes),
    length-last b.max_bytes (b.bytes ++ bytes),
  );
  scrollback_max = max_bytes-append b bytes ∙ v.scrollback_max;
  events = append-IsValid r seq bytes v.events;
  events_max = max_events-append r seq bytes ∙ v.events_max;
}

module _ {P : Type 0} (vt : Vt100 P) (os : Os) (limits : Limits) where
  pub new-IsLive :
      (id : ShellId) (name cwd shell_path : Bytes) (fd : ℕ) (pid : Option ℕ) (cols rows : ℕ)
      → IsLive limits id (Shell.new vt os id name cwd shell_path fd pid cols rows limits)
  unfolding Shell.new BoundedBytes.new EventRing.new
  new-IsLive id name cwd shell_path fd pid cols rows = record {
    same_id = refl;
    is_running = refl;
    is_open = (fd, refl);
    bounded = record {
      scrollback = omega arith;
      scrollback_max = refl;
      events = record { counted = refl; bounded = omega arith };
      events_max = refl;
    };
  }

  module _ {id : ShellId} {s : ShellState P} where
    pub resize-IsLive :
        (cols rows : ℕ) → IsLive limits id s → IsLive limits id (Shell.resize vt os s cols rows).1
    unfolding Shell.resize
    resize-IsLive cols rows v = ground arith

    pub record_chunk-IsLive :
        (bytes : Bytes) → IsLive limits id s → IsLive limits id (Shell.record_chunk vt os s bytes)
    record_chunk-IsLive bytes v = record {
      same_id = v.same_id;
      is_running = v.is_running;
      is_open = v.is_open;
      bounded = append-IsBounded limits s.scrollback s.events _ bytes v.bounded;
    }

    pub send_chunk-IsLive :
        (seq : ℕ) (bytes : Bytes)
        → IsLive limits id s
        → IsLive limits id (Shell.send_chunk vt os s seq bytes).0
    unfolding Shell.send_chunk
    send_chunk-IsLive seq bytes v = record {
      same_id = v.same_id;
      is_running = v.is_running;
      is_open = v.is_open;
      bounded = v.bounded;
    }

    pub record_output-IsLive :
        (bytes : Bytes)
        → IsLive limits id s
        → IsLive limits id (Shell.record_output vt os s bytes).0
    unfolding Shell.record_output Shell.send_chunk
    record_output-IsLive bytes v = record {
      same_id = v.same_id;
      is_running = v.is_running;
      is_open = v.is_open;
      bounded = append-IsBounded limits s.scrollback s.events _ bytes v.bounded;
    }

    pub attach_fresh-IsLive :
        (cols rows tx : ℕ)
        → IsLive limits id s
        → IsLive limits id (attach_fresh vt os s cols rows tx).1
    unfolding attach_fresh
    attach_fresh-IsLive cols rows tx v =
        let r = resize-IsLive cols rows v in
        record {
          same_id = r.same_id;
          is_running = r.is_running;
          is_open = r.is_open;
          bounded = r.bounded;
        }

    pub attach-IsLive :
        (cols rows : ℕ) (steal : Bool) (tx : ℕ)
        → IsLive limits id s
        → IsLive limits id (Shell.attach vt os s cols rows steal tx).1
    unfolding Shell.attach
    attach-IsLive cols rows steal tx v = go s.attach
      where
        go : (a : Option Attach) → IsLive limits id (attach_to vt os a s cols rows steal tx).1
        go none = attach_fresh-IsLive cols rows tx v
        go (some a) = elim (Bool-cases steal) [
          | inl h ↦ rw h (attach_fresh-IsLive cols rows tx v)
          | inr h ↦ rw h v
        ]

module _ {P : Type 0} {limits : Limits} {id : ShellId} {s : ShellState P} where
  pub detach-IsLive :
      (attach_id : AttachId) → IsLive limits id s → IsLive limits id (Shell.detach s attach_id)
  unfolding Shell.detach
  detach-IsLive attach_id v = ground arith

  pub poll_cwd-IsLive :
      (found : Option Bytes) → IsLive limits id s → IsLive limits id (Shell.poll_cwd s found).0
  unfolding Shell.poll_cwd
  poll_cwd-IsLive found v = ground arith

  pub rename-IsLive :
      (name : Bytes) → IsLive limits id s → IsLive limits id (record s { name = name })
  rename-IsLive name v = record {
    same_id = v.same_id;
    is_running = v.is_running;
    is_open = v.is_open;
    bounded = v.bounded;
  }

  pub clear-IsLive :
      (vt : Vt100 P) → IsLive limits id s → IsLive limits id (Shell.clear_replay_buffers vt s)
  unfolding Shell.clear_replay_buffers BoundedBytes.clear EventRing.clear
  clear-IsLive vt v = record {
    same_id = v.same_id;
    is_running = v.is_running;
    is_open = v.is_open;
    bounded = record {
      scrollback = omega arith;
      scrollback_max = v.bounded.scrollback_max;
      events = record { counted = refl; bounded = omega arith };
      events_max = v.bounded.events_max;
    };
  }
