-- ===== src/Common/Sort.antt =====
-- ORDER BY a number, LIMIT n.
use Prim.Native.Nat.{ℕ, zero, suc, ◌<◌, min}
use mathlib.Core.Path.{◌≡◌, refl, ap, ◌∙◌}
use mathlib.Core.Logic.{inl, inr}
use mathlib.Core.Bool.{false}
use mathlib.Core.List.{List, [], ◌∷◌}
use native.Mathlib.Omega.{arith}
use dogx.Common.Tests.{if◌then◌else◌, ◌==◌, leb, Bool-cases}
use dogx.Common.Lists.{length, All, take}

unfoldable pub insert_ordered : ℕ → List ℕ → List ℕ
insert_ordered x [] = x ∷ []
insert_ordered x (y ∷ ys) =
    let rest = insert_ordered x ys in if leb x y then x ∷ y ∷ ys else y ∷ rest

unfoldable pub order : List ℕ → List ℕ
unfolding insert_ordered
order [] = []
order (x ∷ xs) = insert_ordered x (order xs)

pub length-order : (xs : List ℕ) → length (order xs) ≡ length xs
unfolding order
length-order [] = refl
length-order (x ∷ xs) = length-insert x (order xs) ∙ ap suc (length-order xs)
  where
    length-insert : (x : ℕ) (ys : List ℕ) → length (insert_ordered x ys) ≡ suc (length ys)
    length-insert x [] = refl
    length-insert x (y ∷ ys) = ground (arith, length-insert x ys)

pub length-take : (n : ℕ) (xs : List ℕ) → length (take n xs) ≡ min n (length xs)
length-take zero xs = omega arith
length-take (suc n) [] = omega arith
length-take (suc n) (x ∷ xs) = omega (arith, length-take n xs)

-- Strictly ascending from a bound on.
abbrev pub Ascends : ℕ → List ℕ → Type 0
Ascends p [] = Unit
Ascends p (x ∷ xs) = (p < x) × Ascends x xs

All-insert : (P : ℕ → Type 0) (x : ℕ) (ys : List ℕ) → P x → All P ys → All P (insert_ordered x ys)
unfolding insert_ordered
All-insert P x [] px h = (px, tt)
All-insert P x (y ∷ ys) px h = elim (Bool-cases (leb x y)) [
  | inl e ↦ rw e (px, h)
  | inr e ↦ rw e (h.0, All-insert P x ys px h.1)
]

pub All-order : (P : ℕ → Type 0) (xs : List ℕ) → All P xs → All P (order xs)
unfolding order
All-order P [] h = tt
All-order P (x ∷ xs) h = All-insert P x (order xs) h.0 (All-order P xs h.1)

pub All-take : (P : ℕ → Type 0) (n : ℕ) (xs : List ℕ) → All P xs → All P (take n xs)
All-take P zero xs h = tt
All-take P (suc n) [] h = tt
All-take P (suc n) (x ∷ xs) h = (h.0, All-take P n xs h.1)

pub Ascends-take : (p n : ℕ) (xs : List ℕ) → Ascends p xs → Ascends p (take n xs)
Ascends-take p zero xs h = tt
Ascends-take p (suc n) [] h = tt
Ascends-take p (suc n) (x ∷ xs) h = (h.0, Ascends-take x n xs h.1)

Ascends-insert :
    (p x : ℕ) (ys : List ℕ)
    → p < x
    → All (λ y. (y == x) ≡ false) ys
    → Ascends p ys
    → Ascends p (insert_ordered x ys)
unfolding insert_ordered
Ascends-insert p x [] h ne a = (h, tt)
Ascends-insert p x (y ∷ ys) h ne a = elim (Bool-cases (leb x y)) [
  | inl e ↦ rw e (h, ((let n = ne.0 in ground arith), a.1))
  | inr e ↦ rw e (a.0, Ascends-insert y x ys (ground arith) ne.1 a.1)
]

-- Distinct positive IDs come out strictly ascending.
abbrev pub DistinctIds : List ℕ → Type 0
DistinctIds [] = Unit
DistinctIds (x ∷ xs) = (0 < x) × All (λ y. (y == x) ≡ false) xs × DistinctIds xs

pub Ascends-order : (xs : List ℕ) → DistinctIds xs → Ascends 0 (order xs)
unfolding order
Ascends-order [] h = tt
Ascends-order (x ∷ xs) h =
    Ascends-insert 0 x (order xs) h.0 (All-order _ xs h.1) (Ascends-order xs h.2)
