-- ===== src/Prelude/Separators.antt =====
-- Texts that are equal, cut at the first or the last of a separator.
use livesh.Prelude.Lists.{any}
use livesh.Prelude.Tests.{◌==◌}
use livesh.Prelude.Text.{Bytes}
use Prim.Native.Nat.{ℕ}
use mathlib.Core.Path.{◌≡◌, refl, ap}
use mathlib.Core.Bool.{true, false}
use mathlib.Core.List.{[], ◌∷◌, ◌++◌}
use native.Mathlib.Omega.{arith}

-- Two texts with a separator that is not in front of it.
pub first-injective :
    (c : ℕ) (a b m n : Bytes)
    → any (λ x. x == c) a ≡ false
    → any (λ x. x == c) b ≡ false
    → a ++ (c ∷ m) ≡ b ++ (c ∷ n)
    → (a ≡ b) × (m ≡ n)
first-injective c [] [] m n u v h = (refl, ground (arith, h))
first-injective c [] (y ∷ b) m n u v h = absurd (ground (arith, h, v))
first-injective c (x ∷ a) [] m n u v h = absurd (ground (arith, h, u))
first-injective c (x ∷ a) (y ∷ b) m n u v h =
    let (p, q) = first-injective c a b m n (ground arith) (ground arith) (ground (arith, h)) in
    (ground (arith, p, h), q)

any-append : (c : ℕ) (a n : Bytes) → any (λ x. x == c) (a ++ (c ∷ n)) ≡ true
any-append c [] n = ground arith
any-append c (x ∷ a) n = ground (arith, any-append c a n)

-- Two texts with a separator that is not behind it.
pub last-injective :
    (c : ℕ) (a b m n : Bytes)
    → any (λ x. x == c) m ≡ false
    → any (λ x. x == c) n ≡ false
    → a ++ (c ∷ m) ≡ b ++ (c ∷ n)
    → (a ≡ b) × (m ≡ n)
last-injective c [] [] m n u v h = (refl, ground (arith, h))
last-injective c [] (y ∷ b) m n u v h =
    let e : m ≡ b ++ (c ∷ n) = ground (arith, h) in
    absurd (ground (arith, ap (any (λ x. x == c)) e, u, any-append c b n))
last-injective c (x ∷ a) [] m n u v h =
    let e : n ≡ a ++ (c ∷ m) = ground (arith, h) in
    absurd (ground (arith, ap (any (λ x. x == c)) e, v, any-append c a m))
last-injective c (x ∷ a) (y ∷ b) m n u v h =
    let (p, q) = last-injective c a b m n u v (ground (arith, h)) in (ground (arith, p, h), q)

pub prefix-injective : (a b c : Bytes) → a ++ b ≡ a ++ c → b ≡ c
prefix-injective [] b c h = h
prefix-injective (x ∷ a) b c h = prefix-injective a b c (ground (arith, h))
