-- ===== src/Pty/Written.antt =====
-- What `write_all` has written when it ends, and that it ends.
use livesh.Prelude.{
  ℕ, zero, suc, ◌≤◌, ◌≡◌, refl, ap, ◌∙◌, Bool, true, false, List, [], ◌∷◌, ◌++◌, arith, length,
  take, drop, take-append-drop, append_assoc, length-drop, Bytes,
}
use livesh.Pty.{Answer, done, interrupted, failed, Ended, ok, write_all}

-- The bytes that were not taken: none where it succeeds.
abbrev pub IsLeft : Ended (Unit {0}) → Bytes → Type 0
IsLeft (ok u) left = left ≡ []
IsLeft _ left = Unit

-- Whatever `write` answers: the terminal has taken a beginning of the bytes, in their order and
-- without a gap, and if `write_all` succeeds it has taken all of them.
pub write_all-prefix :
    (answers : List (Answer ℕ)) (bytes : Bytes)
    → let r = write_all answers bytes in (left : Bytes) × (r.1 ++ left ≡ bytes) × IsLeft (r.0) left
unfolding write_all
write_all-prefix [] [] = ([], refl, refl)
write_all-prefix (a ∷ answers) [] = ([], refl, refl)
write_all-prefix [] (b ∷ bs) = (b ∷ bs, refl, tt)
write_all-prefix (interrupted ∷ answers) (b ∷ bs) = write_all-prefix answers (b ∷ bs)
write_all-prefix (failed e ∷ answers) (b ∷ bs) = (b ∷ bs, refl, tt)
write_all-prefix (done zero ∷ answers) (b ∷ bs) = (b ∷ bs, refl, tt)
write_all-prefix (done (suc n) ∷ answers) (b ∷ bs) =
    let (left, shape, is_left) = write_all-prefix answers (drop n bs) in
    (
      left,
      ap (λ xs. b ∷ xs)
          (append_assoc (take n bs) ((write_all answers (drop n bs)).1) left
            ∙ ap (λ xs. take n bs ++ xs) shape
            ∙ take-append-drop n bs),
      is_left,
    )

-- An answer that is neither an error nor a `write` of no bytes.
abbrev pub is_fine : Answer ℕ → Bool
is_fine (done (suc n)) = true
is_fine interrupted = true
is_fine _ = false

abbrev pub AllFine : List (Answer ℕ) → Type 0
AllFine [] = Unit
AllFine (a ∷ answers) = (is_fine a ≡ true) × AllFine answers

-- The answers that are not interruptions.
abbrev pub count_done : List (Answer ℕ) → ℕ
count_done [] = 0
count_done (done n ∷ answers) = suc (count_done answers)
count_done (_ ∷ answers) = count_done answers

-- However often `write` is interrupted, and however few bytes it takes at a time: if no call fails and
-- as many calls as there are bytes are not interrupted, `write_all` ends, and all bytes are written.
pub write_all-ends :
    (answers : List (Answer ℕ)) (bytes : Bytes)
    → AllFine answers
    → length bytes ≤ count_done answers
    → write_all answers bytes ≡ (ok tt, bytes)
unfolding write_all
write_all-ends [] [] f l = refl
write_all-ends (a ∷ answers) [] f l = refl
write_all-ends [] (b ∷ bs) f l = absurd (omega arith)
write_all-ends (interrupted ∷ answers) (b ∷ bs) f l = write_all-ends answers (b ∷ bs) (f.1) l
write_all-ends (failed e ∷ answers) (b ∷ bs) f l = absurd (ground arith)
write_all-ends (done zero ∷ answers) (b ∷ bs) f l = absurd (ground arith)
write_all-ends (done (suc n) ∷ answers) (b ∷ bs) f l =
    let rest = write_all-ends answers (drop n bs) (f.1) (omega (arith, l, length-drop n bs)) in
    rw rest (ap (λ xs. (ok tt, b ∷ xs)) (take-append-drop n bs))
