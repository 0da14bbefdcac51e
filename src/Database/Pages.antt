-- ===== src/Database/Pages.antt =====
-- Pages of a listing: ORDER BY id LIMIT n, and what lies behind a page.
use dogx.Common.{
  ℕ, zero, suc, ◌≤◌, ◌<◌, ◌≡◌, refl, sym, ◌∙◌, ◌==◌, leb, true, List, [], ◌∷◌, ◌++◌, take, last_or,
  arith, Bool-cases, ◌⊎◌, inl, inr, ◌||◌,
}
use dogx.Common.Sort.{insert_ordered, order}
use dogx.Database.{elem}

elem-insert : (a x : ℕ) (ys : List ℕ) → elem a (insert_ordered x ys) ≡ (a == x || elem a ys)
unfolding insert_ordered
elem-insert a x [] = ground arith
elem-insert a x (y ∷ ys) = ground (arith, elem-insert a x ys)

pub elem-order : (a : ℕ) (xs : List ℕ) → elem a (order xs) ≡ elem a xs
unfolding order
elem-order a [] = refl
elem-order a (x ∷ xs) = ground (arith, elem-insert a x (order xs), elem-order a xs)

pub elem-append : (a : ℕ) (xs ys : List ℕ) → elem a (xs ++ ys) ≡ (elem a xs || elem a ys)
elem-append a [] ys = refl
elem-append a (x ∷ xs) ys = ground (arith, elem-append a xs ys)

-- Ascending, from a bound on.
abbrev pub Rises : ℕ → List ℕ → Type 0
Rises p [] = Unit
Rises p (x ∷ xs) = (p ≤ x) × Rises x xs

Rises-insert : (p x : ℕ) (ys : List ℕ) → p ≤ x → Rises p ys → Rises p (insert_ordered x ys)
unfolding insert_ordered
Rises-insert p x [] h r = (h, tt)
Rises-insert p x (y ∷ ys) h r = elim (Bool-cases (leb x y)) [
  | inl e ↦ rw e (h, (ground arith, r.1))
  | inr e ↦ rw e (r.0, Rises-insert y x ys (ground arith) r.1)
]

pub Rises-order : (xs : List ℕ) → Rises 0 (order xs)
unfolding order
Rises-order [] = tt
Rises-order (x ∷ xs) = Rises-insert 0 x (order xs) (omega arith) (Rises-order xs)

elem_bound : (a p : ℕ) (xs : List ℕ) → Rises p xs → elem a xs ≡ true → p ≤ a
elem_bound a p [] r e = cc
elem_bound a p (x ∷ xs) r e = elim (Bool-cases (a == x)) [
  | inl h ↦ let b = r.0 in ground arith
  | inr h ↦ let b = r.0 in let c = elem_bound a x xs r.1 (ground arith) in omega arith
]

-- A number of an ascending list stands in its first entries or lies behind the last of them.
elem_later :
    (a p n : ℕ) (xs : List ℕ)
    → Rises p xs
    → p < a
    → elem a xs ≡ true
    → (elem a (take n xs) ≡ true) ⊎ (last_or p (take n xs) < a)
elem_later a p zero xs r h e = inr h
elem_later a p (suc n) [] r h e = cc
elem_later a p (suc n) (x ∷ xs) r h e = elim (Bool-cases (a == x)) [
  | inl q ↦ inl (ground arith)
  | inr q ↦
      let e' : elem a xs ≡ true = ground arith in
      let b = elem_bound a x xs r.1 e' in
      elim (elem_later a x n xs r.1 (ground arith) e') [
        | inl i ↦ inl (ground arith)
        | inr l ↦ inr l
      ]
]

Rises-from :
    (p q : ℕ) (xs : List ℕ) → Rises p xs → ((a : ℕ) → elem a xs ≡ true → q ≤ a) → Rises q xs
Rises-from p q [] r h = tt
Rises-from p q (x ∷ xs) r h = (h x (ground (arith)), r.1)

-- The same of the rows of a query that orders all rows and takes the first ones.
pub page_covers :
    (a p n : ℕ) (ids : List ℕ)
    → ((b : ℕ) → elem b ids ≡ true → p < b)
    → p < a
    → elem a ids ≡ true
    → (elem a (take n (order ids)) ≡ true) ⊎ (last_or p (take n (order ids)) < a)
page_covers a p n ids above h e =
    let r =
      Rises-from 0 p (order ids) (Rises-order ids)
        (λ b i. let k = above b (sym (elem-order b ids) ∙ i) in omega arith) in
    elem_later a p n (order ids) r h (elem-order a ids ∙ e)
