-- ===== src/Bridge/InputTask/Flushed.antt =====
-- The input task holds nothing back for long.
use livesh.Prelude.{
  ℕ, Bool, ◌≡◌, refl, sym, ap, ◌∙◌, subst, List, [], ◌∷◌, ◌++◌, arith, append-nil, true, false,
}
use livesh.Bridge.InputFilter.{BridgeInputFilter, flush_pending}
use livesh.Bridge.InputFilter.Scan.{Removes}
use livesh.Bridge.KeyboardReset.{observe_output}
use livesh.Bridge.InputTask.{
  Turn, read_bytes, timed_out, closed, observed, before_read, after_wait, input_task, send_input,
}
use livesh.Bridge.InputTask.Sent.{flatten, all_read, input_task-Handed, send_input-all}

-- The input does not end.
abbrev pub GoesOn : List (ℕ × Turn) → Type 0
GoesOn [] = Unit
GoesOn ((now, closed) ∷ turns) = (false ≡ true)
GoesOn ((now, _) ∷ turns) = GoesOn turns

abbrev pub then_pause : List (ℕ × Turn) → ℕ → List (ℕ × Turn)
then_pause turns now = turns ++ ((now, timed_out) ∷ [])

after_wait_flushed : (f : BridgeInputFilter) (now : ℕ) → (after_wait f now).0.pending ≡ []
unfolding after_wait flush_pending
after_wait_flushed f now = ground arith

input_task_flushed :
    (f : BridgeInputFilter) (turns : List (ℕ × Turn)) (now : ℕ)
    → GoesOn turns
    → (input_task f (then_pause turns now)).1.pending ≡ []
unfolding input_task after_wait
input_task_flushed f [] now g = after_wait_flushed (before_read f now).0 now
input_task_flushed f ((n, observed t bytes) ∷ turns) now g =
    input_task_flushed (observe_output f bytes t) turns now g
input_task_flushed f ((n, closed) ∷ turns) now g = absurd (ground arith)
input_task_flushed f ((n, timed_out) ∷ turns) now g = input_task_flushed _ turns now g
input_task_flushed f ((n, read_bytes t bytes) ∷ turns) now g = input_task_flushed _ turns now g

all_read-then_pause :
    (turns : List (ℕ × Turn)) (now : ℕ)
    → GoesOn turns
    → all_read (then_pause turns now) ≡ all_read turns
all_read-then_pause [] now g = refl
all_read-then_pause ((n, observed t bytes) ∷ turns) now g = all_read-then_pause turns now g
all_read-then_pause ((n, closed) ∷ turns) now g = absurd (ground arith)
all_read-then_pause ((n, timed_out) ∷ turns) now g = all_read-then_pause turns now g
all_read-then_pause ((n, read_bytes t bytes) ∷ turns) now g =
    ap (λ r. bytes ++ r) (all_read-then_pause turns now g)

-- Once the wait for more input is over, nothing is pending; and if no send has failed, all that was
-- read, and was pending before, has been sent to the daemon, less complete key releases and nothing
-- else.
pub input_task-then_pause :
    (succeeds : ℕ → Bool) (f : BridgeInputFilter) (turns : List (ℕ × Turn)) (now : ℕ)
    → GoesOn turns
    → ((k : ℕ) → succeeds k ≡ true)
    → let r = input_task f (then_pause turns now) in
      (r.1.pending ≡ [])
      × Removes (f.pending ++ all_read turns) (flatten (send_input succeeds 0 (r.0)))
input_task-then_pause succeeds f turns now goes_on all_sent =
    let r = input_task f (then_pause turns now) in
    let (front, shape, removes) = input_task-Handed f (then_pause turns now) in
    let flushed = input_task_flushed f turns now goes_on in
    let whole : f.pending ++ all_read turns ≡ front =
      ap (λ b. f.pending ++ b) (sym (all_read-then_pause turns now goes_on))
      ∙ shape
      ∙ ap (λ b. front ++ b) flushed
      ∙ append-nil front in
    (
      flushed,
      rw (send_input-all succeeds 0 (r.0) all_sent)
          (subst (λ t. Removes t (flatten (r.0))) (sym whole) removes),
    )
