-- ===== src/Common/Assoc.antt =====
-- A Go map with integer keys, as an association list whose keys are distinct.
use Prim.Native.Nat.{ℕ, suc, ◌+◌, ◌≤◌, ◌<◌}
use mathlib.Core.Path.{◌≡◌, refl, ap}
use mathlib.Core.Logic.{inl, inr}
use mathlib.Core.Bool.{Bool, false}
use mathlib.Core.Option.{Option, none, some}
use mathlib.Core.List.{List, [], ◌∷◌}
use native.Mathlib.Omega.{arith}
use dogx.Common.Tests.{if◌then◌else◌, ◌==◌, Bool-cases}
use dogx.Common.Lists.{length}

module _ {V : Type 0} where
  unfoldable pub lookup : ℕ → List (ℕ × V) → Option V
  lookup k [] = none
  lookup k ((j, v) ∷ m) = if j == k then some v else lookup k m

  -- m[k] = v for a key that is there.
  unfoldable pub assign : ℕ → V → List (ℕ × V) → List (ℕ × V)
  assign k v [] = []
  assign k v ((j, w) ∷ m) = if j == k then (j, v) ∷ m else (j, w) ∷ assign k v m

  -- delete(m, k)
  unfoldable pub erase : ℕ → List (ℕ × V) → List (ℕ × V)
  erase k [] = []
  erase k ((j, w) ∷ m) = if j == k then m else (j, w) ∷ erase k m

  abbrev pub Distinct : List (ℕ × V) → Type 0
  Distinct [] = Unit
  Distinct ((k, v) ∷ m) = (lookup k m ≡ none) × Distinct m

  -- How many values pass a test.
  unfoldable pub tally : (V → Bool) → List (ℕ × V) → ℕ
  tally f [] = 0
  tally f ((k, v) ∷ m) = (if f v then 1 else 0) + tally f m

  pub tally-le-length : (f : V → Bool) (m : List (ℕ × V)) → tally f m ≤ length m
  unfolding tally
  tally-le-length f [] = omega arith
  tally-le-length f ((k, v) ∷ m) = ground (arith, tally-le-length f m)

  pub lookup-assign :
      (k j : ℕ) (v : V) (m : List (ℕ × V)) {w : V}
      → lookup k m ≡ some w
      → lookup j (assign k v m) ≡ (if k == j then some v else lookup j m)
  unfolding lookup assign
  lookup-assign k j v [] h = cc
  lookup-assign k j v ((i, u) ∷ m) h = elim (Bool-cases (i == k)) [
    | inl e ↦ rw e (ground arith)
    | inr e ↦ let r = lookup-assign k j v m (rw e at h) in rw e (ground (arith, r))
  ]

  pub lookup-erase_ne :
      (k j : ℕ) (m : List (ℕ × V)) → (k == j) ≡ false → lookup j (erase k m) ≡ lookup j m
  unfolding lookup erase
  lookup-erase_ne k j [] h = refl
  lookup-erase_ne k j ((i, u) ∷ m) h = ground (arith, lookup-erase_ne k j m h)

  pub lookup-erase : (k : ℕ) (m : List (ℕ × V)) → Distinct m → lookup k (erase k m) ≡ none
  unfolding lookup erase
  lookup-erase k [] d = refl
  lookup-erase k ((i, u) ∷ m) d = elim (Bool-cases (i == k)) [
    | inl e ↦ rw e (let p = d.0 in ground arith)
    | inr e ↦ rw (e, e) (lookup-erase k m d.1)
  ]

  pub length-assign : (k : ℕ) (v : V) (m : List (ℕ × V)) → length (assign k v m) ≡ length m
  unfolding assign
  length-assign k v [] = refl
  length-assign k v ((i, u) ∷ m) = ground (arith, length-assign k v m)

  pub length-erase :
      (k : ℕ) (m : List (ℕ × V)) {w : V} → lookup k m ≡ some w → length m ≡ suc (length (erase k m))
  unfolding lookup erase
  length-erase k [] h = cc
  length-erase k ((i, u) ∷ m) h = elim (Bool-cases (i == k)) [
    | inl e ↦ rw e refl
    | inr e ↦ rw e (ap suc (length-erase k m (rw e at h)))
  ]

  pub Distinct-assign :
      (k : ℕ) (v : V) (m : List (ℕ × V)) {w : V}
      → lookup k m ≡ some w
      → Distinct m
      → Distinct (assign k v m)
  unfolding lookup assign
  Distinct-assign k v [] h d = tt
  Distinct-assign k v ((i, u) ∷ m) h d = elim (Bool-cases (i == k)) [
    | inl e ↦ rw e d
    | inr e ↦
        let r = lookup-assign k i v m (rw e at h) in
        rw e (let p = d.0 in ground (arith, r), Distinct-assign k v m (rw e at h) d.1)
  ]

  pub Distinct-erase : (k : ℕ) (m : List (ℕ × V)) → Distinct m → Distinct (erase k m)
  unfolding lookup erase
  Distinct-erase k [] d = tt
  Distinct-erase k ((i, u) ∷ m) d = elim (Bool-cases (i == k)) [
    | inl e ↦ rw e d.1
    | inr e ↦ rw e (let p = d.0 in ground (arith, lookup-erase_ne k i m), Distinct-erase k m d.1)
  ]

  pub tally-assign :
      (f : V → Bool) (k : ℕ) (v : V) (m : List (ℕ × V)) {w : V}
      → lookup k m ≡ some w
      → tally f (assign k v m) + (if f w then 1 else 0) ≡ tally f m + (if f v then 1 else 0)
  unfolding lookup assign tally
  tally-assign f k v [] h = cc
  tally-assign f k v ((i, u) ∷ m) {w} h = elim (Bool-cases (i == k)) [
    | inl e ↦ rw e (let q : some u ≡ some w = rw e at h in ground arith)
    | inr e ↦ rw e (omega (arith, tally-assign f k v m (rw e at h)))
  ]

  pub tally-erase :
      (f : V → Bool) (k : ℕ) (m : List (ℕ × V)) {w : V}
      → lookup k m ≡ some w
      → tally f m ≡ tally f (erase k m) + (if f w then 1 else 0)
  unfolding lookup erase tally
  tally-erase f k [] h = cc
  tally-erase f k ((i, u) ∷ m) {w} h = elim (Bool-cases (i == k)) [
    | inl e ↦ rw e (let q : some u ≡ some w = rw e at h in ground arith)
    | inr e ↦ rw e (omega (arith, tally-erase f k m (rw e at h)))
  ]

  pub tally-lt-length :
      (f : V → Bool) (k : ℕ) (m : List (ℕ × V)) {w : V}
      → lookup k m ≡ some w
      → f w ≡ false
      → tally f m < length m
  unfolding lookup tally
  tally-lt-length f k [] h e = cc
  tally-lt-length f k ((i, u) ∷ m) {w} h e = elim (Bool-cases (i == k)) [
    | inl b ↦ let q : some u ≡ some w = rw b at h in ground (arith, tally-le-length f m)
    | inr b ↦ ground (arith, tally-lt-length f k m (rw b at h) e)
  ]
