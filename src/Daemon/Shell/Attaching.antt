-- ===== src/Daemon/Shell/Attaching.antt =====
-- `attach`: who gets the shell, and what the new client is sent.
use livesh.Prelude.{
  ℕ, ◌+◌, ◌<◌, ◌^◌, ◌≡◌, refl, ap, Bool, true, Option, none, some, List, [], ◌∷◌, ◌++◌, arith,
  Bytes, codes, ltb, leb, length, all, filter,
}
use livesh.Prelude.Result.{ok}
use livesh.Protocol.{AttachId, detached_by_another_client, snapshot, output, cwd_changed}
use livesh.Limits.EventRing
use livesh.Limits.EventRing.{EventRing, Event}
use livesh.Limits.EventRing.Bounds.{append-all}
use livesh.Terminal
use livesh.Terminal.{Vt100}
use livesh.Daemon.Os.{Os}
use livesh.Daemon.Shell
use livesh.Daemon.Shell.{
  ShellState, Sent, Attach, already_attached, attach_to, attach_fresh, sent_output, still_attached,
}

module _ {P : Type 0} (vt : Vt100 P) (os : Os) where
  -- The attach that a client gets is new.
  abbrev pub new_attach_id : AttachId
  new_attach_id = codes "att_" ++ os.uuid

  attach_to-steal :
      (a : Option Attach) (s : ShellState P) (cols rows tx : ℕ)
      → let r = attach_to vt os a s cols rows true tx in
        (r.0 ≡ ok new_attach_id)
        × (r.1.attach ≡ some (record { id = new_attach_id; tx = tx }))
        × (r.1.master ≡ s.master)
  unfolding attach_to Shell.resize
  attach_to-steal none s cols rows tx = ground arith
  attach_to-steal (some a) s cols rows tx = ground arith

  -- A stealing attach always succeeds, and is the attach of the shell from then on.
  pub attach-steal :
      (s : ShellState P) (cols rows tx : ℕ)
      → let r = Shell.attach vt os s cols rows true tx in
        (r.0 ≡ ok new_attach_id)
        × (r.1.attach ≡ some (record { id = new_attach_id; tx = tx }))
        × (r.1.master ≡ s.master)
  unfolding Shell.attach
  attach-steal s cols rows tx = attach_to-steal s.attach s cols rows tx

module _ {P : Type 0} (vt : Vt100 P) (os : Os) where
  pub attach-free :
      (s : ShellState P) (cols rows : ℕ) (steal : Bool) (tx : ℕ)
      → s.attach ≡ none
      → (Shell.attach vt os s cols rows steal tx).0 ≡ ok (new_attach_id vt os)
  unfolding Shell.attach attach_to attach_fresh
  attach-free s cols rows steal tx h = rw (Shell.attach, h) refl

-- The output that a shell records, chunk after chunk, each with what the system answers.
pub record_all :
    {P : Type 0} → Vt100 P → ShellState P → List (Os × Bytes) → ShellState P × List Sent
record_all vt s [] = (s, [])
record_all vt s ((os, bytes) ∷ cs) =
    let (s', msgs) = Shell.record_output vt os s bytes in
    let (s'', rest) = record_all vt s' cs in (s'', msgs ++ rest)

-- The messages of an attached client: each chunk once, in order, numbered on from `n`.
abbrev pub numbered : ℕ → AttachId → ℕ → List (Os × Bytes) → List Sent
numbered tx attach_id n [] = []
numbered tx attach_id n ((os, bytes) ∷ cs) =
    (tx, output attach_id (n + 1) bytes) ∷ numbered tx attach_id (n + 1) cs

-- The client's channel is open at every chunk.
abbrev pub AllOpen : ℕ → List (Os × Bytes) → Type 0
AllOpen tx [] = Unit
AllOpen tx ((os, bytes) ∷ cs) = (os.is_open tx ≡ true) × AllOpen tx cs

module _ {P : Type 0} (vt : Vt100 P) where
  -- While the client is there and the counter of 64 bits does not wrap, the client of a shell gets
  -- every chunk of output once and in order, with consecutive numbers from the shell's counter on.
  pub record_all-numbered :
      (s : ShellState P) (a : Attach) (cs : List (Os × Bytes))
      → s.attach ≡ some a
      → AllOpen a.tx cs
      → s.seq + length cs < 2 ^ 64
      → (record_all vt s cs).1 ≡ numbered a.tx a.id s.seq cs
  unfolding record_all Shell.record_output
  record_all-numbered s a [] h o l = refl
  record_all-numbered s a ((os, bytes) ∷ cs) h o l =
      let s' = (Shell.record_output vt os s bytes).0 in
      let next : Shell.next_seq s.seq ≡ s.seq + 1 = omega arith in
      let kept : still_attached os s.attach ≡ some a = rw h (rw o.0 refl) in
      let rest = record_all-numbered s' a cs kept o.1 (omega (arith, next)) in
      rw (rest, h, next) refl

  -- No event of a shell's log is newer than its counter.
  abbrev pub IsCurrent : ShellState P → Type 0
  IsCurrent s = all (λ e. leb (e.0) s.seq) s.events.events ≡ true

  pub all-leb_suc :
      (n : ℕ) (es : List Event)
      → all (λ e. leb (e.0) n) es ≡ true
      → all (λ e. leb (e.0) (n + 1)) es ≡ true
  all-leb_suc n [] h = refl
  all-leb_suc n (e ∷ es) h = ground (arith, all-leb_suc n es)

  pub filter-leb :
      (n : ℕ) (es : List Event)
      → all (λ e. leb (e.0) n) es ≡ true
      → filter (λ e. ltb n (e.0)) es ≡ []
  filter-leb n [] h = refl
  filter-leb n (e ∷ es) h = ground (arith, filter-leb n es)

  record_all-IsCurrent :
      (s : ShellState P) (cs : List (Os × Bytes))
      → IsCurrent s
      → s.seq + length cs < 2 ^ 64
      → IsCurrent (record_all vt s cs).0
  unfolding record_all Shell.record_output
  record_all-IsCurrent s [] c l = c
  record_all-IsCurrent s ((os, bytes) ∷ cs) c l =
      let next : Shell.next_seq s.seq ≡ s.seq + 1 = omega arith in
      record_all-IsCurrent (Shell.record_output vt os s bytes).0 cs
        (append-all (λ n. leb n (Shell.next_seq s.seq)) s.events (Shell.next_seq s.seq) bytes
          (rw next (all-leb_suc s.seq s.events.events c)) (ground arith))
        (omega (arith, next))

  -- What the client that had the shell is told.
  abbrev pub notice : Option Attach → List Sent
  notice none = []
  notice (some a) = (a.tx, detached_by_another_client a.id) ∷ []

  attach_fresh-sent :
      (os : Os) (s : ShellState P) (cols rows tx : ℕ)
      → IsCurrent s
      → let r = attach_fresh vt os s cols rows tx in
        r.2
        ≡ (
          tx,
          snapshot s.id
              (new_attach_id vt os)
              s.seq
              s.name
              s.status
              (Terminal.snapshot_bytes vt r.1.terminal),
        )
          ∷ (tx, cwd_changed (new_attach_id vt os) s.cwd)
          ∷ []
  unfolding attach_fresh Shell.resize EventRing.after
  attach_fresh-sent os s cols rows tx c = ground (arith, filter-leb s.seq s.events.events c)

  attach_to-sent :
      (a : Option Attach) (os : Os) (s : ShellState P) (cols rows tx : ℕ)
      → IsCurrent s
      → let r = attach_to vt os a s cols rows true tx in
        r.2
        ≡ notice a
          ++ (
            tx,
            snapshot s.id
                (new_attach_id vt os)
                s.seq
                s.name
                s.status
                (Terminal.snapshot_bytes vt r.1.terminal),
          )
            ∷ (tx, cwd_changed (new_attach_id vt os) s.cwd)
            ∷ []
  unfolding attach_to
  attach_to-sent none os s cols rows tx c = attach_fresh-sent os s cols rows tx c
  attach_to-sent (some a) os s cols rows tx c =
      ap (λ ms. (a.tx, detached_by_another_client a.id) ∷ ms)
        (attach_fresh-sent os s cols rows tx c)

  pub attach-sent :
      (os : Os) (s : ShellState P) (cols rows tx : ℕ)
      → IsCurrent s
      → let r = Shell.attach vt os s cols rows true tx in
        r.2
        ≡ notice s.attach
          ++ (
            tx,
            snapshot s.id
                (new_attach_id vt os)
                s.seq
                s.name
                s.status
                (Terminal.snapshot_bytes vt r.1.terminal),
          )
            ∷ (tx, cwd_changed (new_attach_id vt os) s.cwd)
            ∷ []
  unfolding Shell.attach
  attach-sent os s cols rows tx c = attach_to-sent s.attach os s cols rows tx c

  -- With no output on its way as the client attaches, no output is sent again.
  attach-record_all :
      (os : Os) (s : ShellState P) (cs : List (Os × Bytes)) (cols rows tx : ℕ)
      → IsCurrent s
      → s.seq + length cs < 2 ^ 64
      → let t = (record_all vt s cs).0 in
        let r = Shell.attach vt os t cols rows true tx in
        r.2
        ≡ notice t.attach
          ++ (
            tx,
            snapshot t.id
                (new_attach_id vt os)
                t.seq
                t.name
                t.status
                (Terminal.snapshot_bytes vt r.1.terminal),
          )
            ∷ (tx, cwd_changed (new_attach_id vt os) t.cwd)
            ∷ []
  attach-record_all os s cs cols rows tx c l =
      attach-sent os (record_all vt s cs).0 cols rows tx (record_all-IsCurrent s cs c l)
