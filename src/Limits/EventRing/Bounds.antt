-- ===== src/Limits/EventRing/Bounds.antt =====
-- The bounds of an `EventRing`, and what it keeps of its history.
use livesh.Prelude.{
  filter, leb, ℕ, zero, suc, ◌+◌, ◌-◌, ◌≤◌, ◌<◌, ◌≡◌, refl, sym, ◌∙◌, List, [], ◌∷◌, ◌++◌, arith,
  ◌⊎◌, inl, inr, length, drop, length-append, length-drop, ltb, ◌==◌, Bool-cases, Bytes, all, true,
  Bool, ltb→lt,
}
use livesh.Limits.EventRing.{
  after, Event, EventRing, new, prune_loop, clip, append, flatten, bytes, clear,
}

-- The bytes that the events hold.
abbrev pub weight : List Event → ℕ
weight [] = 0
weight (e ∷ es) = length (e.1) + weight es

weight-append : (xs ys : List Event) → weight (xs ++ ys) ≡ weight xs + weight ys
weight-append [] ys = omega arith
weight-append (x ∷ xs) ys = omega (arith, weight-append xs ys)

length-flatten : (es : List Event) → length (flatten es) ≡ weight es
length-flatten [] = refl
length-flatten (e ∷ es) = omega (arith, length-append (e.1) (flatten es), length-flatten es)

pub record IsValid (r : EventRing) : Type 0 where
  pub counted : r.total_bytes ≡ weight r.events
  pub bounded : r.total_bytes ≤ r.max_bytes

prune_loop-counted :
    (m t : ℕ) (es : List Event)
    → t ≡ weight es
    → ((prune_loop m t es).0 ≡ weight ((prune_loop m t es).1)) × ((prune_loop m t es).0 ≤ m)
unfolding prune_loop
prune_loop-counted m t [] h = ground arith
prune_loop-counted m t (e ∷ es) h = ground (arith, prune_loop-counted m (t - length (e.1)) es)

length-clip : (m : ℕ) (b : Bytes) → length (clip m b) ≤ m
length-clip m b = ground (arith, length-drop (length b - m) b)

pub append-IsValid : (r : EventRing) (seq : ℕ) (b : Bytes) → IsValid r → IsValid (append r seq b)
unfolding append
append-IsValid r seq b v = ground (
  arith,
  prune_loop-counted r.max_bytes (r.total_bytes + length (clip r.max_bytes b))
      (r.events ++ ((seq, clip r.max_bytes b) ∷ [])),
  weight-append r.events ((seq, clip r.max_bytes b) ∷ []),
)

pub new-IsValid : (m : ℕ) → IsValid (new m)
unfolding new
new-IsValid m = record { counted = refl; bounded = omega arith }

pub clear-IsValid : (r : EventRing) → IsValid (clear r)
unfolding clear
clear-IsValid r = record { counted = refl; bounded = omega arith }

-- `append` in a loop, over the output events in their order.
pub append_all : EventRing → List Event → EventRing
append_all r [] = r
append_all r (e ∷ es) = append_all (append r (e.0) (e.1)) es

append_all-IsValid : (r : EventRing) (es : List Event) → IsValid r → IsValid (append_all r es)
unfolding append_all
append_all-IsValid r [] v = v
append_all-IsValid r (e ∷ es) v =
    append_all-IsValid (append r (e.0) (e.1)) es (append-IsValid r (e.0) (e.1) v)

pub max_bytes-append :
    (r : EventRing) (seq : ℕ) (b : Bytes) → (append r seq b).max_bytes ≡ r.max_bytes
unfolding append
max_bytes-append r seq b = ground arith

max_bytes-append_all : (r : EventRing) (es : List Event) → (append_all r es).max_bytes ≡ r.max_bytes
unfolding append_all
max_bytes-append_all r [] = refl
max_bytes-append_all r (e ∷ es) =
    max_bytes-append_all (append r (e.0) (e.1)) es ∙ max_bytes-append r (e.0) (e.1)

-- After any events, `total_bytes` is the number of bytes that the ring holds, which is the length of
-- `bytes()`, and it is at most `max_bytes`.
pub append_all-bounded :
    (m : ℕ) (es : List Event)
    → let r = append_all (new m) es in (r.total_bytes ≡ length (bytes r)) × (length (bytes r) ≤ m)
unfolding bytes
append_all-bounded m es =
    let v = append_all-IsValid (new m) es (new-IsValid m) in
    let e = length-flatten (append_all (new m) es).events in
    let k : (append_all (new m) es).max_bytes ≡ m =
      max_bytes-append_all (new m) es ∙ (unfold new in refl) in
    (v.counted ∙ sym e, omega (arith, v.bounded, v.counted))

-- What a pruning leaves: the events behind the first `n`, and `n` as small as the bound allows.
abbrev pub Pruned : ℕ → List Event → List Event → Type 0
Pruned m es kept = (n : ℕ) × (kept ≡ drop n es) × ((n ≡ 0) ⊎ (m < weight (drop (n - 1) es)))

prune_loop-Pruned :
    (m t : ℕ) (es : List Event) → t ≡ weight es → Pruned m es ((prune_loop m t es).1)
unfolding prune_loop
prune_loop-Pruned m t [] h = (0, ground arith, inl refl)
prune_loop-Pruned m t (e ∷ es) h = elim (Bool-cases (ltb m t)) [
  | inl over ↦
      let (n, kept, least) = prune_loop-Pruned m (t - length (e.1)) es (omega arith) in
      rw over (suc n, kept, inr (shift n least over))
  | inr fits ↦ rw fits (0, refl, inl refl)
]
  where
    shift :
        (n : ℕ)
        → (n ≡ 0) ⊎ (m < weight (drop (n - 1) es))
        → ltb m t ≡ true
        → m < weight (drop (suc n - 1) (e ∷ es))
    shift zero d over = omega (arith, ltb→lt m t over, h)
    shift (suc n) (inl z) over = absurd (omega arith)
    shift (suc n) (inr l) over = let e' : suc (suc n) - 1 ≡ suc (suc n - 1) = omega arith in rw e' l

-- An appended event of more than `max_bytes` bytes is cut to its last `max_bytes`; then the oldest
-- events are dropped, and not one more than the bound asks for. A bound of 0 keeps nothing.
pub append-Pruned :
    (r : EventRing) (seq : ℕ) (b : Bytes)
    → IsValid r
    → ((r.max_bytes ≡ 0) × ((append r seq b).events ≡ []))
      ⊎ Pruned r.max_bytes (r.events ++ ((seq, clip r.max_bytes b) ∷ [])) (append r seq b).events
unfolding append
append-Pruned r seq b v = elim (Bool-cases (r.max_bytes == 0)) [
  | inl z ↦ inl (ground arith, ground arith)
  | inr z ↦ rw z (
      inr (
        prune_loop-Pruned r.max_bytes _ _
          (omega (arith, v.counted, weight-append r.events ((seq, clip r.max_bytes b) ∷ [])))))
]

prune_loop-all :
    (p : Event → Bool) (m t : ℕ) (es : List Event)
    → all p es ≡ true
    → all p (prune_loop m t es).1 ≡ true
unfolding prune_loop
prune_loop-all p m t [] h = ground arith
prune_loop-all p m t (e ∷ es) h = ground (arith, prune_loop-all p m (t - length (e.1)) es)

all-append :
    (p : Event → Bool) (xs ys : List Event)
    → all p xs ≡ true
    → all p ys ≡ true
    → all p (xs ++ ys) ≡ true
all-append p [] ys h k = k
all-append p (x ∷ xs) ys h k = ground (arith, all-append p xs ys)

-- A test on the numbers of the events, if the appended one passes it.
pub append-all :
    (p : ℕ → Bool) (r : EventRing) (seq : ℕ) (b : Bytes)
    → all (λ e. p (e.0)) r.events ≡ true
    → p seq ≡ true
    → all (λ e. p (e.0)) (append r seq b).events ≡ true
unfolding append
append-all p r seq b h k = elim (Bool-cases (r.max_bytes == 0)) [
  | inl z ↦ rw z refl
  | inr z ↦ rw z (
      prune_loop-all (λ e. p (e.0)) r.max_bytes _ _
        (all-append (λ e. p (e.0)) r.events ((seq, clip r.max_bytes b) ∷ []) h (ground arith)))
]

filter-snoc :
    (n : ℕ) (es : List Event) (x : Event)
    → all (λ e. leb (e.0) n) es ≡ true
    → n < x.0
    → filter (λ e. ltb n (e.0)) (es ++ (x ∷ [])) ≡ x ∷ []
filter-snoc n [] x h l = ground arith
filter-snoc n (e ∷ es) x h l = ground (arith, filter-snoc n es x)

prune_loop-newer :
    (n m t : ℕ) (es : List Event) (x : Event)
    → all (λ e. leb (e.0) n) es ≡ true
    → n < x.0
    → let newer = filter (λ e. ltb n (e.0)) (prune_loop m t (es ++ (x ∷ []))).1 in
      (newer ≡ []) ⊎ (newer ≡ x ∷ [])
unfolding prune_loop
prune_loop-newer n m t [] x h l = elim (Bool-cases (ltb m t)) [
  | inl over ↦ rw over (ground arith)
  | inr fits ↦ rw fits (inr (ground arith))
]
prune_loop-newer n m t (e ∷ es) x h l = elim (Bool-cases (ltb m t)) [
  | inl over ↦ rw over (prune_loop-newer n m (t - length (e.1)) es x (ground (arith, h)) l)
  | inr fits ↦ rw fits (inr (filter-snoc n (e ∷ es) x h l))
]

-- Of the events newer than those before an append there is at most the appended one, cut to the bound.
pub after-append :
    (r : EventRing) (n seq : ℕ) (b : Bytes)
    → all (λ e. leb (e.0) n) r.events ≡ true
    → n < seq
    → (after (append r seq b) n ≡ []) ⊎ (after (append r seq b) n ≡ (seq, clip r.max_bytes b) ∷ [])
unfolding append after
after-append r n seq b h l = elim (Bool-cases (r.max_bytes == 0)) [
  | inl z ↦ rw z (inl refl)
  | inr z ↦ rw z (
      prune_loop-newer n r.max_bytes (r.total_bytes + length (clip r.max_bytes b)) r.events
        (seq, clip r.max_bytes b) h l)
]
