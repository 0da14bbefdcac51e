-- ===== src/StopRecovery/Covers.antt =====
-- recovery.go: no stopping Instance is passed over.
use dogx.Common.{
  ℕ, zero, suc, ◌+◌, ◌-◌, ◌≤◌, ◌<◌, ◌≡◌, ◌≢◌, refl, ap, ◌∙◌, ◌==◌, Bool, true, false, List, [], ◌∷◌,
  ◌⊎◌, inl, inr, All, take, last_or, arith, Bool-cases, ◌&&◌, map, select,
}
use Prim.Native.Nat.{min}
use dogx.Common.Sort.{order}
use dogx.Common.Keyset.{descending, first_or_zero, All-first}
use dogx.Database.{elem}
use dogx.Database.Pages.{elem-order, elem-append, page_covers}
use dogx.Model.Instance.{JobInstance, is_stopping}
use dogx.InstanceStore.Listings.{exists, instance_id, is_stopping_between}
use dogx.StopRecovery.{
  SqlCall, ScanEnv, StoppingPosition, complete, Pass, scan_pages, scan_from, scan,
}
use dogx.StopRecovery.Scanned.{
  PageOf, page, unread, tail, stopped, finished, continues, scan_page-PageOf, ScanOf, scan-ScanOf,
  highest, goes_on, no_bound, nothing, sets_out,
}

-- The Instance stands in STOPPING in the table that a query reads.
unfoldable pub stops_in : ℕ → List JobInstance → Bool
stops_in id rows = exists (λ i. i.id == id && is_stopping i.status) rows

-- The scan has not come to the ID: no bound is read, or the ID lies between position and bound.
abbrev pub Ahead : ℕ → StoppingPosition → Type 0
Ahead id p = (p.after < id) × ((p.upper ≡ 0) ⊎ (id ≤ p.upper))

-- The ID's hint was accepted, or the traversal is not at its end and the ID lies ahead.
abbrev pub Covered : ℕ → Pass → Type 0
Covered id r =
    (elem id r.hinted ≡ true)
    ⊎ ((r.finish ≢ complete) × (r.position.after < id) × (id ≤ r.position.upper))

stops_in-elem :
    (id after upper : ℕ) (rows : List JobInstance)
    → after < id
    → id ≤ upper
    → stops_in id rows ≡ true
    → elem id (map instance_id (select (is_stopping_between after upper) rows)) ≡ true
unfolding stops_in
stops_in-elem id after upper [] a u h = cc
stops_in-elem id after upper (i ∷ rows) a u h =
    ground (arith, stops_in-elem id after upper rows a u)

listed_above :
    (after upper : ℕ) (rows : List JobInstance) (b : ℕ)
    → elem b (map instance_id (select (is_stopping_between after upper) rows)) ≡ true
    → after < b
listed_above after upper [] b h = cc
listed_above after upper (i ∷ rows) b h = ground (arith, listed_above after upper rows b)

take_none : (n : ℕ) (xs : List ℕ) → (n == 0) ≡ false → take n xs ≡ [] → xs ≡ []
take_none zero xs z e = cc
take_none (suc n) [] z e = refl
take_none (suc n) (x ∷ xs) z e = cc

take-take : (m n : ℕ) (xs : List ℕ) → take m (take n xs) ≡ take (min m n) xs
take-take zero n xs = let e : min 0 n ≡ 0 = omega arith in rw e refl
take-take (suc m) zero xs = let e : min (suc m) 0 ≡ 0 = omega arith in rw e refl
take-take (suc m) (suc n) [] =
    let e : min (suc m) (suc n) ≡ suc (min m n) = omega arith in rw e refl
take-take (suc m) (suc n) (x ∷ xs) =
    let e : min (suc m) (suc n) ≡ suc (min m n) = omega arith in
    rw e (ap (◌∷◌ x) (take-take m n xs))

-- The pass from behind a page on.
abbrev rest : SqlCall → ℕ → StoppingPosition → (StoppingPosition → Pass) → Pass
rest c size p next = next (record p { after = last_or p.after (page c size p next) })

module _ (id size : ℕ) (p : StoppingPosition) (c : SqlCall) (next : StoppingPosition → Pass)
    (a : p.after < id) (u : id ≤ p.upper) (s : stops_in id c.rows ≡ true) where
  abbrev ids : List ℕ
  ids = map instance_id (select (is_stopping_between p.after p.upper) c.rows)

  within :
      (n : ℕ) → (elem id (take n (order ids)) ≡ true) ⊎ (last_or p.after (take n (order ids)) < id)
  within n =
      page_covers id p.after n ids (listed_above p.after p.upper c.rows) a
        (stops_in-elem id p.after p.upper c.rows a u s)

  PageOf-Covered :
      (r : Pass)
      → ((q : StoppingPosition) → q.after < id → id ≤ q.upper → Covered id (next q))
      → PageOf c size p next r
      → Covered id r
  PageOf-Covered _ ih (unread e) = inr (λ q. cc, a, u)
  PageOf-Covered _ ih (tail z e) =
      let o = take_none size (order ids) z e in
      let k = elem-order id ids ∙ stops_in-elem id p.after p.upper c.rows a u s in
      absurd (ground (arith, o, k))
  PageOf-Covered _ ih (stopped n f q v) =
      let t = take-take n size (order ids) in
      let f' : f ≢ complete = λ e. ground arith in
      elim (within (min n size)) [ inl h ↦ inl (rw t h) | inr h ↦ inr (f', rw t h, u) ]
  PageOf-Covered _ ih (finished v e) = elim (within size) [
    | inl h ↦ inl h
    | inr h ↦ absurd (ground arith)
  ]
  PageOf-Covered _ ih (continues x xs e v l) = elim (within size) [
    | inl h ↦ inl (ground (arith, elem-append id (page c size p next) (rest c size p next).hinted))
    | inr h ↦ elim (ih (record p { after = last_or p.after (page c size p next) }) h u) [
      | inl g ↦
          inl (ground (arith, elem-append id (page c size p next) (rest c size p next).hinted))
      | inr g ↦ inr g
    ]
  ]

-- An Instance that every query of a pass reads in STOPPING.
abbrev pub StopsThrough : ℕ → ScanEnv → Type 0
StopsThrough id env =
    (stops_in id env.bound.rows ≡ true) × ((k : ℕ) → stops_in id (env.pages k).rows ≡ true)

scan_pages-Covered :
    (id : ℕ) (env : ScanEnv) (size fuel k : ℕ) (p : StoppingPosition)
    → StopsThrough id env
    → p.after < id
    → id ≤ p.upper
    → Covered id (scan_pages env size fuel k p)
unfolding scan_pages
scan_pages-Covered id env size zero k p s a u = inr (λ e. cc, a, u)
scan_pages-Covered id env size (suc fuel) k p s a u =
    let next = scan_pages env size fuel (k + 1) in
    PageOf-Covered id size p (env.pages k) next a u (s.1 k) _
      (λ q. scan_pages-Covered id env size fuel (k + 1) q s)
      (scan_page-PageOf (env.pages k) size p next env k refl)

elem-All : (id b : ℕ) (xs : List ℕ) → All (λ x. x ≤ b) xs → elem id xs ≡ true → id ≤ b
elem-All id b [] a e = cc
elem-All id b (x ∷ xs) a e =
    let k = a.0 in
    elim (Bool-cases (id == x)) [
      | inl q ↦ ground arith
      | inr q ↦ elem-All id b xs a.1 (ground arith)
    ]

first-take : (xs : List ℕ) → first_or_zero (take 1 xs) ≡ first_or_zero xs
first-take [] = refl
first-take (x ∷ xs) = refl

pub elem_first :
    (id : ℕ) (xs : List ℕ) → elem id xs ≡ true → id ≤ first_or_zero (take 1 (descending xs))
elem_first id xs e = let k = elem-All id _ xs (All-first xs) e in rw (first-take (descending xs)) k

pub stopping_elem :
    (id : ℕ) (rows : List JobInstance)
    → stops_in id rows ≡ true
    → elem id (map instance_id (select (λ i. is_stopping i.status) rows)) ≡ true
unfolding stops_in
stopping_elem id [] h = cc
stopping_elem id (i ∷ rows) h = ground (arith, stopping_elem id rows)

scan_from-Covered :
    (id : ℕ) (env : ScanEnv) (size : ℕ) (p : StoppingPosition)
    → StopsThrough id env
    → p.after < id
    → id ≤ p.upper
    → Covered id (scan_from env size p)
unfolding scan_from
scan_from-Covered id env size p = scan_pages-Covered id env size (suc (p.upper - p.after)) 0 p

-- As in Covered, for a pass that may have to read its bound.
abbrev pub Held : ℕ → Pass → Type 0
Held id r = (elem id r.hinted ≡ true) ⊎ ((r.finish ≢ complete) × Ahead id r.position)

Covered-Held : (id : ℕ) (r : Pass) → Covered id r → Held id r
Covered-Held id r (inl h) = inl h
Covered-Held id r (inr (n, a, u)) = inr (n, (a, inr u))

module _ (id : ℕ) (env : ScanEnv) (size : ℕ) (p : StoppingPosition) (s : StopsThrough id env)
    (a : Ahead id p) where
  ScanOf-Held : (r : Pass) → ScanOf env size p r → Held id r
  ScanOf-Held _ (goes_on u) = Covered-Held id _ (
      scan_from-Covered id env size p s a.0
        (elim a.1 [ inl z ↦ absurd (ground arith) | inr h ↦ h ]))
  ScanOf-Held _ (no_bound e u) = inr (λ q. cc, a)
  ScanOf-Held _ (nothing u z) = inr (λ q. cc, a)
  ScanOf-Held _ (sets_out u) = Covered-Held id _ (
      scan_from-Covered id env size (record p { upper = highest env.bound }) s a.0
        (elem_first id _ (stopping_elem id env.bound.rows s.0)))

  pub scan-Held : Held id (scan env size p)
  scan-Held = ScanOf-Held (scan env size p) (scan-ScanOf env size p)
