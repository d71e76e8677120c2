-- ===== src/Daemon/Server/Runs.antt =====
-- What every run of the daemon keeps, whatever its clients, shells and sweeps do, in any order.
use livesh.Prelude.{
  ℕ, zero, suc, max, ◌+◌, ◌≤◌, ◌≡◌, some, List, [], ◌∷◌, arith, length, leb, Option-cases,
  Bool-cases, inl, inr,
}
use livesh.Terminal.{Vt100}
use livesh.Daemon.Os.{Os}
use livesh.Daemon.Env.{CommandBuilder}
use livesh.Daemon.Registry.{Registry}
use livesh.Daemon.Registry.Sound.{IsSound, IsSound-length, cleanup_shell-IsSound}
use livesh.Daemon.Registry.Creating.{make_shell-IsSound}
use livesh.Daemon.Upkeep.Sound.{
  kill_all-IsSound, cleanup_dead_shells-IsSound, prune_storage_caps-IsSound,
}
use livesh.Daemon.Server.{
  Server, Event, connect, message, disconnect, read_output, child_exited, cwd_polled, periodic_gc,
  Creation, begin_create, end_create, kill_victim, chunk_recorded, chunk_sent, late_output, pick,
  begun, ended, attached_of, handle_event, run,
}
use livesh.Daemon.Server.Sound.{
  answer_created_states, detach_all-IsSound, handle_msg-IsSound, output_of-IsSound,
  recorded_of-IsSound, sent_of-IsSound, cwd_of-IsSound,
}

pick-length :
    (index : ℕ) (cs : List Creation) {c : Creation} {others : List Creation}
    → pick index cs ≡ some (c, others)
    → length cs ≡ length others + 1
unfolding pick
pick-length index [] h = absurd (ground (arith, h))
pick-length zero (c ∷ cs) h = ground (arith, h)
pick-length (suc index) (c ∷ cs) {c = found} {others} h = elim (Option-cases (pick index cs)) [
  | inl e ↦ absurd (ground (arith, e, h))
  | inr ((d, rest), e) ↦ ground (arith, e, h, pick-length index cs {c = d} {others = rest} e)
]

-- The shells, with those of the creations under way, are within a number that leaves room for the
-- creations of `others`.
record IsWithin {P : Type 0} (reg : Registry) (others : ℕ) (v : Server P) : Type 0 where
  pub most : ℕ
  pub sound : IsSound reg.config.limits most v.daemon.states
  pub room : most + length v.creating ≤ reg.config.limits.max_shells + others

-- The worker of an event that ends a creation is that of the creation.
abbrev own : {P : Type 0} → Event P → ℕ
own (end_create index) = 1
own _ = 0

-- Beside the event that is handled, there are at most `others` creations under way at a time.
abbrev pub AtMost :
    {P C : Type 0}
    → ℕ
    → Vt100 P
    → CommandBuilder C
    → Registry
    → Server P
    → List (Os × Event P)
    → Type 0
AtMost others vt cb reg v [] = Unit
AtMost others vt cb reg v ((os, e) ∷ es) =
    (length v.creating ≤ others + own e)
    × AtMost others vt cb reg (handle_event vt cb reg os v e) es

module _ {P C : Type 0} (vt : Vt100 P) (cb : CommandBuilder C) (reg : Registry) (os : Os)
    (others : ℕ) where
  begun-IsWithin :
      (c : Creation) (v : Server P)
      → length v.creating ≤ others
      → IsWithin reg others v
      → IsWithin reg others (begun vt cb reg os c v)
  unfolding begun
  begun-IsWithin c v l h =
      elim (Bool-cases (leb reg.config.limits.max_shells (length v.daemon.states))) [
        | inl e ↦ rw (begun, e) record { most = h.most; sound = h.sound; room = h.room }
        | inr e ↦
            rw (begun, e)
              record {
                most = length v.daemon.states;
                sound = IsSound-length v.daemon.states (omega arith) h.sound;
                room = ground (arith, e, l);
              }
      ]

  ended-IsWithin :
      (index : ℕ) (v : Server P)
      → IsWithin reg others v
      → IsWithin reg others (ended vt cb reg os (pick index v.creating) v)
  unfolding ended
  ended-IsWithin index v h = elim (Option-cases (pick index v.creating)) [
    | inl e ↦ rw e h
    | inr ((c, rest), e) ↦ rw e record {
      most = h.most + 1;
      sound = rw (answer_created_states c.tx _) (
          make_shell-IsSound vt reg os cb v.daemon c.name c.cwd c.shell_path c.env c.cols c.rows
            h.sound);
      room = omega (arith, h.room, pick-length index v.creating {c = c} {others = rest} e);
    }
  ]

  handle_event-IsWithin :
      (v : Server P) (e : Event P)
      → length v.creating ≤ others + own e
      → IsWithin reg others v
      → IsWithin reg others (handle_event vt cb reg os v e)
  unfolding handle_event
  handle_event-IsWithin v (connect tx hello) l h = ground (arith, h)
  handle_event-IsWithin v (message tx msg) l h = record {
    most = max h.most reg.config.limits.max_shells;
    sound =
        handle_msg-IsSound vt cb reg os v.daemon tx msg (omega arith)
          (IsSound-length v.daemon.states (omega (arith, h.sound.counted)) h.sound);
    room = omega (arith, h.room, l);
  }
  handle_event-IsWithin v (begin_create c) l h = begun-IsWithin c v (omega (arith, l)) h
  handle_event-IsWithin v (end_create index) l h = ended-IsWithin index v h
  handle_event-IsWithin v (kill_victim id pid) l h = record {
    most = h.most;
    sound = kill_all-IsSound reg ((id, pid) ∷ []) v.daemon h.sound;
    room = h.room;
  }
  handle_event-IsWithin v (disconnect tx) l h = record {
    most = h.most;
    sound = detach_all-IsSound (attached_of tx v.clients) v.daemon h.sound;
    room = h.room;
  }
  handle_event-IsWithin v (read_output id bytes) l h = record {
    most = h.most;
    sound = output_of-IsSound vt cb reg os id bytes v.daemon h.sound;
    room = h.room;
  }
  handle_event-IsWithin v (chunk_recorded id bytes) l h = record {
    most = h.most;
    sound = recorded_of-IsSound vt cb reg os id bytes v.daemon h.sound;
    room = h.room;
  }
  handle_event-IsWithin v (chunk_sent id seq bytes) l h = record {
    most = h.most;
    sound = sent_of-IsSound vt cb reg os id seq bytes v.daemon h.sound;
    room = h.room;
  }
  handle_event-IsWithin v (late_output s bytes) l h = record {
    most = h.most;
    sound = h.sound;
    room = h.room;
  }
  handle_event-IsWithin v (child_exited id exit_code) l h = record {
    most = h.most;
    sound = cleanup_shell-IsSound reg v.daemon id exit_code h.sound;
    room = h.room;
  }
  handle_event-IsWithin v (cwd_polled id found) l h = record {
    most = h.most;
    sound = cwd_of-IsSound vt cb reg os id found v.daemon h.sound;
    room = h.room;
  }
  handle_event-IsWithin v periodic_gc l h = record {
    most = h.most;
    sound =
        prune_storage_caps-IsSound vt reg os _
          (cleanup_dead_shells-IsSound reg os v.daemon h.sound);
    room = h.room;
  }

run-IsWithin :
    {P C : Type 0} (vt : Vt100 P) (cb : CommandBuilder C) (reg : Registry) (others : ℕ)
    → (v : Server P) (es : List (Os × Event P)) → AtMost others vt cb reg v es
    → IsWithin reg others v
    → IsWithin reg others (run vt cb reg v es)
unfolding run
run-IsWithin vt cb reg others v [] a h = h
run-IsWithin vt cb reg others v ((os, e) ∷ es) a h =
    run-IsWithin vt cb reg others (handle_event vt cb reg os v e) es a.1
      (handle_event-IsWithin vt cb reg os others v e a.0 h)

-- Whatever events a run has, in whatever order, and whatever the system answers: if the run starts with
-- at most `max_shells` shells that are sound and with no creation under way, and there are at most
-- `others` creations under way beside the event that is handled, then at its end there are at most
-- `max_shells + others` shells; each is registered once and under its own id, runs, has an open
-- terminal, and keeps a scrollback and an event log that are not over their byte limits.
pub run-IsSound :
    {P C : Type 0} (vt : Vt100 P) (cb : CommandBuilder C) (reg : Registry) (others : ℕ)
    → (v : Server P) (es : List (Os × Event P))
    → IsSound reg.config.limits reg.config.limits.max_shells v.daemon.states
    → v.creating ≡ []
    → AtMost others vt cb reg v es
    → IsSound reg.config.limits
        (reg.config.limits.max_shells + others)
        (run vt cb reg v es).daemon.states
run-IsSound vt cb reg others v es h none_under_way a =
    let start : IsWithin reg others v = record {
      most = reg.config.limits.max_shells;
      sound = h;
      room = ground (arith, none_under_way);
    } in
    let end = run-IsWithin vt cb reg others v es a start in
    IsSound-length _ (omega (arith, end.sound.counted, end.room)) end.sound
