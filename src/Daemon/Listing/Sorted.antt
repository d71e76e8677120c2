-- ===== src/Daemon/Listing/Sorted.antt =====
-- `list` answers every shell once, in the order of creation.
use mathlib.Core.List.{Perm}
use mathlib.Core.List.Perm
use livesh.Prelude.{ℕ, ◌≤◌, List, [], ◌∷◌, arith, leb, Bool-cases, inl, inr}
use livesh.Protocol.{ShellInfo}
use livesh.Daemon.Listing.{insert_info, sort_by_created}

-- Every info is at most as old as those behind it.
abbrev pub AtMost : ℕ → List ShellInfo → Type 0
AtMost t [] = Unit
AtMost t (x ∷ xs) = (t ≤ x.created_at_ms) × AtMost t xs

abbrev pub IsSorted : List ShellInfo → Type 0
IsSorted [] = Unit
IsSorted (x ∷ xs) = AtMost x.created_at_ms xs × IsSorted xs

AtMost-mono : (s t : ℕ) (xs : List ShellInfo) → s ≤ t → AtMost t xs → AtMost s xs
AtMost-mono s t [] h a = tt
AtMost-mono s t (x ∷ xs) h a = (omega (arith, a.0), AtMost-mono s t xs h a.1)

insert-AtMost :
    (t : ℕ) (x : ShellInfo) (xs : List ShellInfo)
    → t ≤ x.created_at_ms
    → AtMost t xs
    → AtMost t (insert_info x xs)
unfolding insert_info
insert-AtMost t x [] h a = (h, tt)
insert-AtMost t x (y ∷ ys) h a = ground (arith, insert-AtMost t x ys h a.1)

insert-IsSorted : (x : ShellInfo) (xs : List ShellInfo) → IsSorted xs → IsSorted (insert_info x xs)
unfolding insert_info
insert-IsSorted x [] s = (tt, tt)
insert-IsSorted x (y ∷ ys) s = ground (
  arith,
  insert-IsSorted x ys s.1,
  insert-AtMost y.created_at_ms x ys,
  AtMost-mono x.created_at_ms y.created_at_ms ys,
)

insert-perm : (x : ShellInfo) (xs : List ShellInfo) → Perm (insert_info x xs) (x ∷ xs)
unfolding insert_info
insert-perm x [] = Perm.refl (x ∷ [])
insert-perm x (y ∷ ys) = elim (Bool-cases (leb x.created_at_ms y.created_at_ms)) [
  | inl h ↦ rw h (Perm.refl (x ∷ y ∷ ys))
  | inr h ↦ rw h (Perm.trans (Perm.cons y (insert-perm x ys)) (Perm.swap x y ys))
]

pub sort-IsSorted : (xs : List ShellInfo) → IsSorted (sort_by_created xs)
unfolding sort_by_created
sort-IsSorted [] = tt
sort-IsSorted (x ∷ xs) = insert-IsSorted x (sort_by_created xs) (sort-IsSorted xs)

pub sort-perm : (xs : List ShellInfo) → Perm (sort_by_created xs) xs
unfolding sort_by_created
sort-perm [] = Perm.refl []
sort-perm (x ∷ xs) = Perm.trans (insert-perm x (sort_by_created xs)) (Perm.cons x (sort-perm xs))
