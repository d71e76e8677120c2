-- ===== src/Prelude/Dict.antt =====
-- A `HashMap` with text keys, as an association list. Nothing of the program depends on the order in
-- which a `HashMap` is walked but the order of what it answers; that order is the list's here.
use livesh.Prelude.Tests.{if◌then◌else◌, Bool-cases}
use livesh.Prelude.Lists.{length}
use livesh.Prelude.Text.{Bytes, eq_bytes, eq_bytes_iff}
use Prim.Native.Nat.{◌+◌, ◌≤◌}
use mathlib.Core.Path.{◌≡◌, refl, subst}
use mathlib.Core.Logic.{inl, inr}
use mathlib.Core.List.{List, [], ◌∷◌}
use mathlib.Core.Option.{Option, none, some}
use native.Mathlib.Omega.{arith}

abbrev pub Dict {ℓ} : Type ℓ → Type ℓ
Dict V = List (Bytes × V)

module _ {ℓ} {V : Type ℓ} where
  unfoldable pub lookup : Bytes → Dict V → Option V
  lookup k [] = none
  lookup k ((j, v) ∷ m) = if eq_bytes j k then some v else lookup k m

  unfoldable pub insert : Bytes → V → Dict V → Dict V
  insert k v [] = (k, v) ∷ []
  insert k v ((j, w) ∷ m) = if eq_bytes j k then (k, v) ∷ m else (j, w) ∷ insert k v m

  unfoldable pub remove : Bytes → Dict V → Dict V
  remove k [] = []
  remove k ((j, w) ∷ m) = let rest = remove k m in if eq_bytes j k then rest else (j, w) ∷ rest

  abbrev pub values : Dict V → List V
  values [] = []
  values ((j, w) ∷ m) = w ∷ values m

  abbrev pub keys : Dict V → List Bytes
  keys [] = []
  keys ((j, w) ∷ m) = j ∷ keys m

  pub lookup-insert :
      (k j : Bytes) (v : V) (m : Dict V)
      → lookup j (insert k v m) ≡ (if eq_bytes k j then some v else lookup j m)
  unfolding lookup insert
  lookup-insert k j v [] = refl
  lookup-insert k j v ((i, w) ∷ m) =
      ground (arith, eq_bytes_iff k j, eq_bytes_iff i k, eq_bytes_iff i j, lookup-insert k j v m)

  pub lookup-remove :
      (k j : Bytes) (m : Dict V)
      → lookup j (remove k m) ≡ (if eq_bytes k j then none else lookup j m)
  unfolding lookup remove
  lookup-remove k j [] = ground arith
  lookup-remove k j ((i, w) ∷ m) =
      ground (arith, eq_bytes_iff k j, eq_bytes_iff i k, eq_bytes_iff i j, lookup-remove k j m)

  pub length-insert : (k : Bytes) (v : V) (m : Dict V) → length (insert k v m) ≤ length m + 1
  unfolding insert
  length-insert k v [] = omega arith
  length-insert k v ((j, w) ∷ m) = ground (arith, length-insert k v m)

  -- Writing at a key that is there adds no entry.
  pub length-insert_self :
      (k : Bytes) (v : V) {w : V} (m : Dict V)
      → lookup k m ≡ some w
      → length (insert k v m) ≡ length m
  unfolding insert lookup
  length-insert_self k v [] h = ground arith
  length-insert_self k v {w} ((j, w') ∷ m) h = ground (arith, length-insert_self k v {w = w} m)

  pub length-remove : (k : Bytes) (m : Dict V) → length (remove k m) ≤ length m
  unfolding remove
  length-remove k [] = omega arith
  length-remove k ((j, w) ∷ m) = ground (arith, length-remove k m)

  -- A property of every entry.
  abbrev pub AllEntries {κ} : (Bytes → V → Type κ) → Dict V → Type κ
  AllEntries P [] = Unit
  AllEntries P ((j, w) ∷ m) = P j w × AllEntries P m

  pub AllEntries-lookup {κ} :
      (P : Bytes → V → Type κ) (k : Bytes) {v : V} (m : Dict V)
      → AllEntries P m
      → lookup k m ≡ some v
      → P k v
  unfolding lookup
  AllEntries-lookup P k [] a h = absurd (ground arith)
  AllEntries-lookup P k {v} ((j, w) ∷ m) a h = elim (Bool-cases (eq_bytes j k)) [
    | inl e ↦
        let same : w ≡ v = ground arith in
        subst (P k) same (subst (λ i. P i w) ((eq_bytes_iff j k).0 e) a.0)
    | inr ne ↦ AllEntries-lookup P k m a.1 (ground arith)
  ]

  pub AllEntries-insert {κ} :
      (P : Bytes → V → Type κ) (k : Bytes) (v : V) (m : Dict V)
      → AllEntries P m
      → P k v
      → AllEntries P (insert k v m)
  unfolding insert
  AllEntries-insert P k v [] a p = (p, tt)
  AllEntries-insert P k v ((j, w) ∷ m) a p = ground (arith, AllEntries-insert P k v m a.1 p)

  pub AllEntries-remove {κ} :
      (P : Bytes → V → Type κ) (k : Bytes) (m : Dict V) → AllEntries P m → AllEntries P (remove k m)
  unfolding remove
  AllEntries-remove P k [] a = tt
  AllEntries-remove P k ((j, w) ∷ m) a = ground (arith, AllEntries-remove P k m a.1)

module _ {ℓ} {V : Type ℓ} where
  -- No key has two entries.
  abbrev pub IsDistinct : Dict V → Type ℓ
  IsDistinct [] = Unit
  IsDistinct ((j, w) ∷ m) = (lookup j m ≡ none) × IsDistinct m

  pub insert-IsDistinct :
      (k : Bytes) (v : V) (m : Dict V) → IsDistinct m → IsDistinct (insert k v m)
  unfolding insert lookup
  insert-IsDistinct k v [] d = (refl, tt)
  insert-IsDistinct k v ((j, w) ∷ m) d = elim (Bool-cases (eq_bytes j k)) [
    | inl e ↦ rw e (subst (λ i. lookup i m ≡ none) ((eq_bytes_iff j k).0 e) d.0, d.1)
    | inr ne ↦ rw ne (
      ground (arith, lookup-insert k j v m, eq_bytes_iff j k, eq_bytes_iff k j, d.0),
      insert-IsDistinct k v m d.1,
    )
  ]

  pub remove-IsDistinct : (k : Bytes) (m : Dict V) → IsDistinct m → IsDistinct (remove k m)
  unfolding remove lookup
  remove-IsDistinct k [] d = tt
  remove-IsDistinct k ((j, w) ∷ m) d = elim (Bool-cases (eq_bytes j k)) [
    | inl e ↦ rw e (remove-IsDistinct k m d.1)
    | inr ne ↦ rw ne (ground (arith, lookup-remove k j m, d.0), remove-IsDistinct k m d.1)
  ]
