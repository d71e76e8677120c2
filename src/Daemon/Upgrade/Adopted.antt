-- ===== src/Daemon/Upgrade/Adopted.antt =====
-- What a shell keeps over an upgrade.
use livesh.Prelude.{ℕ, ◌-◌, ◌≤◌, ◌≡◌, refl, ap, ◌∙◌, none, some, arith, length, Bytes}
use livesh.Protocol.{ShellId}
use livesh.Limits.{Limits}
use livesh.Limits.BoundedBytes
use livesh.Limits.BoundedBytes.History.{bytes-append, max_bytes-append}
use livesh.Limits.EventRing
use livesh.Limits.EventRing.Bounds.{
  new-IsValid, append-IsValid, max_bytes-append as max_events-append,
}
use livesh.Terminal
use livesh.Terminal.{Vt100}
use livesh.Daemon.Shell.{ShellState}
use livesh.Daemon.Shell.Live.{IsLive}
use livesh.Daemon.Files.{to_metadata}
use livesh.Daemon.Upgrade.{adopt}

module _ {P : Type 0} (vt : Vt100 P) (limits : Limits) (daemon_id : Bytes) (s : ShellState P) where
  -- The shell that the new process makes of the metadata and the files that the old one writes.
  abbrev pub readopted : ℕ → ShellState P
  readopted fd =
      adopt vt s.id (to_metadata daemon_id s) fd s.pid (some (Terminal.raw_snapshot vt s.terminal))
        (some s.scrollback.bytes) (some (EventRing.bytes s.events)) limits

  -- A live shell whose terminal has rows and columns is live again after an upgrade: with the same
  -- id, name, directory, size and process, its whole scrollback, and no client.
  pub adopt-IsLive :
      (id : ShellId) (fd : ℕ)
      → IsLive limits id s
      → 1 ≤ s.size.0
      → 1 ≤ s.size.1
      → let t = readopted fd in
        IsLive limits id t
        × (t.name ≡ s.name)
        × (t.cwd ≡ s.cwd)
        × (t.size ≡ s.size)
        × (t.pid ≡ s.pid)
        × (t.scrollback.bytes ≡ s.scrollback.bytes)
        × (t.attach ≡ none)
  unfolding adopt to_metadata BoundedBytes.new EventRing.new
  adopt-IsLive id fd v rows cols =
      let all_kept : length s.scrollback.bytes - limits.scrollback_bytes_per_shell ≡ 0 =
        omega (arith, v.bounded.scrollback) in
      let scrollback : (BoundedBytes.append (BoundedBytes.new limits.scrollback_bytes_per_shell)
            s.scrollback.bytes).bytes
          ≡ s.scrollback.bytes =
        bytes-append (BoundedBytes.new limits.scrollback_bytes_per_shell) s.scrollback.bytes
        ∙ rw all_kept refl in
      let start = EventRing.new limits.event_ring_bytes_per_shell in
      let live : IsLive limits id (readopted fd) = record {
        same_id = v.same_id;
        is_running = v.is_running;
        is_open = (fd, refl);
        bounded = record {
          scrollback = omega (arith, ap length scrollback, v.bounded.scrollback);
          scrollback_max =
              max_bytes-append (BoundedBytes.new limits.scrollback_bytes_per_shell)
                s.scrollback.bytes;
          events =
              append-IsValid start 0 (EventRing.bytes s.events)
                (new-IsValid limits.event_ring_bytes_per_shell);
          events_max = max_events-append start 0 (EventRing.bytes s.events);
        };
      } in
      (live, refl, refl, ground arith, refl, scrollback, refl)
