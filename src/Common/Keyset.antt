-- ===== src/Common/Keyset.antt =====
-- ORDER BY any key, on rows of any type: insertion by a test `leq`, and the pairs (time, id) that
-- the candidate queries order and continue by.
use Prim.Native.Nat.{ℕ, ◌≤◌}
use mathlib.Core.Bool.{Bool, ◌&&◌, ◌||◌}
use mathlib.Core.List.{List, [], ◌∷◌}
use native.Mathlib.Omega.{arith}
use dogx.Common.Tests.{if◌then◌else◌, ◌==◌, leb, ltb}
use dogx.Common.Lists.{All}

module _ {A : Type 0} where
  unfoldable pub insert_by : (A → A → Bool) → A → List A → List A
  insert_by leq x [] = x ∷ []
  insert_by leq x (y ∷ ys) =
      let rest = insert_by leq x ys in if leq x y then x ∷ y ∷ ys else y ∷ rest

  unfoldable pub order_by : (A → A → Bool) → List A → List A
  unfolding insert_by
  order_by leq [] = []
  order_by leq (x ∷ xs) = insert_by leq x (order_by leq xs)

-- ORDER BY id DESC
abbrev pub descending : List ℕ → List ℕ
descending = order_by (λ a b. leb b a)

-- LIMIT 1, with 0 for no row.
abbrev pub first_or_zero : List ℕ → ℕ
first_or_zero [] = 0
first_or_zero (x ∷ xs) = x

-- (a, b) < (c, d) of SQL.
abbrev pub before : ℕ × ℕ → ℕ × ℕ → Bool
before p q = ltb p.0 q.0 || (p.0 == q.0 && ltb p.1 q.1)

abbrev pub not_after : ℕ × ℕ → ℕ × ℕ → Bool
not_after p q = ltb p.0 q.0 || (p.0 == q.0 && leb p.1 q.1)

insert_first :
    (x : ℕ) (ys : List ℕ)
    → (x ≤ first_or_zero (insert_by (λ c a. leb a c) x ys))
      × (first_or_zero ys ≤ first_or_zero (insert_by (λ c a. leb a c) x ys))
unfolding insert_by
insert_first x [] = omega arith
insert_first x (y ∷ ys) = ground arith

All-le : (b c : ℕ) (xs : List ℕ) → b ≤ c → All (λ x. x ≤ b) xs → All (λ x. x ≤ c) xs
All-le b c [] h a = tt
All-le b c (x ∷ xs) h a = (omega (arith, a.0), All-le b c xs h a.1)

-- Each number of the list is at most the first of its descending order.
pub All-first : (xs : List ℕ) → All (λ x. x ≤ first_or_zero (descending xs)) xs
unfolding order_by
All-first [] = tt
All-first (x ∷ xs) =
    let f = insert_first x (descending xs) in (f.0, All-le _ _ xs f.1 (All-first xs))
