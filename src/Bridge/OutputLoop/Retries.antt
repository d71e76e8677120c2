-- ===== src/Bridge/OutputLoop/Retries.antt =====
-- `reconnect`: the first attempt that decides.
use livesh.Prelude.{
  ℕ, zero, suc, ◌<◌, ◌≡◌, inl, inr, refl, ap, ◌∙◌, Bool, true, false, not, Option, some, arith,
  Bytes, Bool-cases, ◌==◌,
}
use livesh.Prelude.Result.{Result, ok, err}
use livesh.Bridge.OutputLoop.{
  Attempt, attached, refused, timed_out, is_not_found, no_answer, reconnect,
}

-- After this attempt another one is made.
abbrev pub is_retried : {A : Type 0} → Attempt A → Bool
is_retried (attached a) = false
is_retried (refused c message) = not (is_not_found c)
is_retried timed_out = true

-- What an attempt decides, if it does.
abbrev pub decided : {A : Type 0} → Attempt A → Bytes → Result A
decided (attached a) e = ok a
decided (refused c message) e = err message
decided timed_out e = err e

module _ {A : Type 0} (n : ℕ) (outcome : ℕ → Attempt A) (before : Option Bytes) where
  reconnect_stops :
      (o : Attempt A) (e : Bytes)
      → outcome n ≡ o
      → is_retried o ≡ false
      → reconnect (suc n) outcome before ≡ decided o e
  unfolding reconnect
  reconnect_stops (attached a) e h r = rw (reconnect, h) refl
  reconnect_stops (refused c message) e h r =
      let final : is_not_found c ≡ true = ground arith in rw (reconnect, h, final) refl
  reconnect_stops timed_out e h r = cc

  reconnect_goes_on :
      (o : Attempt A)
      → outcome n ≡ o
      → is_retried o ≡ true
      → (next : Option Bytes) × (reconnect (suc n) outcome before ≡ reconnect n outcome next)
  unfolding reconnect
  reconnect_goes_on (attached a) h r = cc
  reconnect_goes_on (refused c message) h r =
      let again : is_not_found c ≡ false = ground arith in
      (some message, rw (reconnect, h, again) refl)
  reconnect_goes_on timed_out h r = (some no_answer, rw (reconnect, h) refl)

-- Attempts are numbered by how many are left behind them. If all before the `k`-th are to be retried
-- and the `k`-th is not, `reconnect` ends with what the `k`-th decides: the connection, or the error
-- that the shell was not found, after which no more attempts are made.
pub reconnect-decided :
    {A : Type 0} (n k : ℕ) (outcome : ℕ → Attempt A) (before : Option Bytes) (e : Bytes)
    → k < n
    → ((j : ℕ) → k < j → j < n → is_retried (outcome j) ≡ true)
    → is_retried (outcome k) ≡ false
    → reconnect n outcome before ≡ decided (outcome k) e
unfolding reconnect
reconnect-decided zero k outcome before e l retried last = absurd (omega arith)
reconnect-decided (suc n) k outcome before e l retried last = elim (Bool-cases (n == k)) [
  | inl same ↦
      let here : n ≡ k = ground arith in
      reconnect_stops n outcome before (outcome k) e (ap outcome here) last
  | inr other ↦
      let more : k < n = ground arith in
      let (next, step) =
        reconnect_goes_on n outcome before (outcome n) refl (retried n more (omega arith)) in
      step
      ∙ reconnect-decided n k outcome next e more (λ j a b. retried j a (omega (arith, b))) last
]
