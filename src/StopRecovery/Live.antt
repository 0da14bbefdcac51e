-- ===== src/StopRecovery/Live.antt =====
-- recovery.go: a pass over a database that answers and a queue with room.
use dogx.Common.{
  ℕ, zero, suc, ◌+◌, ◌-◌, ◌≤◌, ◌<◌, ◌≡◌, refl, subst, ◌==◌, Bool, true, false, none, List, [], ◌∷◌,
  All, ◌⊎◌, inl, inr, take, last_or, map, select, arith, Bool-cases, length,
}
use dogx.Common.Sort.{
  order, Ascends, DistinctIds, Ascends-order, Ascends-take, All-order, All-take, length-take,
}
use dogx.Common.Rows.{DistinctIds-select, All-passing}
use dogx.Database.{ok, elem}
use dogx.InstanceStore.Listings.{
  instance_id, is_stopping_between, list_stopping_candidates, stopping_upper_id,
}
use dogx.Stop.Batch.{valid_ordered_ids}
use dogx.Stop.Children.{ascending_lem}
use dogx.StopRecovery.{
  SqlCall, sql_call, ScanEnv, StoppingPosition, start_position, complete, no_fuel, Pass, valid_page,
  scan_page, scan_pages, scan_from, scan, admit, all_admitted, after_admit,
}
use dogx.StopRecovery.Scanned.{highest}
use dogx.StopRecovery.Ends.{scan_from-fuel}
use dogx.StopRecovery.Covers.{StopsThrough, scan-Held, elem_first, stopping_elem}

-- A query in time, without a failure, of a table whose IDs are positive and distinct.
pub record Answering (c : SqlCall) : Type 0 where
  pub early : c.ended ≡ false
  pub in_time : c.ended_late ≡ false
  pub sound : c.fault ≡ none
  pub distinct : DistinctIds (map instance_id c.rows)

pub record Accepting (env : ScanEnv) : Type 0 where
  pub bound : Answering env.bound
  pub pages : (k : ℕ) → Answering (env.pages k)
  pub running : (k n : ℕ) → env.ended k n ≡ false
  pub room : (k n : ℕ) → env.hint k n ≡ true

admit_all :
    (ended hint : ℕ → Bool) (n : ℕ) (ids : List ℕ) (after : ℕ)
    → ((m : ℕ) → ended m ≡ false)
    → ((m : ℕ) → hint m ≡ true)
    → admit ended hint n ids after ≡ (last_or after ids, ids, all_admitted)
unfolding admit
admit_all ended hint n [] after e h = refl
admit_all ended hint n (id ∷ ids) after e h =
    ground (arith, e n, h n, admit_all ended hint (n + 1) ids id e h)

last_bound : (b x : ℕ) (xs : List ℕ) → x ≤ b → All (λ y. y ≤ b) xs → last_or x xs ≤ b
last_bound b x [] h a = h
last_bound b x (y ∷ ys) h a = last_bound b y ys a.0 a.1

Ascends-above : (p q : ℕ) (xs : List ℕ) → Ascends p xs → All (λ x. q < x) xs → Ascends q xs
Ascends-above p q [] a h = tt
Ascends-above p q (x ∷ xs) a h = (h.0, a.1)

module _ (c : SqlCall) (size : ℕ) (p : StoppingPosition) (next : StoppingPosition → Pass)
    (a : Answering c) where
  abbrev ids : List ℕ
  ids = map instance_id (select (is_stopping_between p.after p.upper) c.rows)

  ids-Ascends : Ascends 0 (take size (order ids))
  ids-Ascends = Ascends-take 0 size _ (
      Ascends-order _
        (DistinctIds-select instance_id (is_stopping_between p.after p.upper) c.rows a.distinct))

  ids_above : All (λ x. p.after < x) (take size (order ids))
  ids_above = All-take _ size _ (
      All-order _ _ (
        All-passing instance_id (is_stopping_between p.after p.upper) _ c.rows
          (λ i h. ground arith)))

  ids_below : All (λ x. x ≤ p.upper) (take size (order ids))
  ids_below = All-take _ size _ (
      All-order _ _ (
        All-passing instance_id (is_stopping_between p.after p.upper) _ c.rows
          (λ i h. ground arith)))

  valid : (xs : List ℕ) → take size (order ids) ≡ xs → valid_page size p xs ≡ true
  unfolding valid_page valid_ordered_ids
  valid [] e = let z = subst (Ascends 0) e ids-Ascends in ground (arith, ascending_lem 0 [] tt)
  valid (x ∷ xs) e =
      let s = subst (Ascends 0) e ids-Ascends in
      let f = subst (All (λ y. p.after < y)) e ids_above in
      let b = subst (All (λ y. y ≤ p.upper)) e ids_below in
      let n : length (x ∷ xs) ≤ size =
        subst (λ l. length l ≤ size) e (omega (arith, length-take size (order ids))) in
      ground (arith, ascending_lem 0 (x ∷ xs) s, f.0, last_bound p.upper x xs b.0 b.1)

  -- A page with an ID leads on behind it; without one, to the end.
  abbrev led : List ℕ → Pass
  led [] = record { position = start_position; hinted = []; finish = complete }
  led (x ∷ xs) = after_admit p (last_or p.after (x ∷ xs), x ∷ xs, all_admitted) next

  module _ (env : ScanEnv) (k : ℕ) (h : env.pages k ≡ c) (z : (size == 0) ≡ false)
      (u : (p.upper == 0) ≡ false) (o : p.after ≤ p.upper)
      (running : (n : ℕ) → env.ended k n ≡ false) (room : (n : ℕ) → env.hint k n ≡ true) where
    query :
        sql_call (env.pages k) (list_stopping_candidates p.after p.upper size)
        ≡ ok (take size (order ids))
    unfolding list_stopping_candidates
    query = rw h (ground (arith, a.early, a.in_time, a.sound))

    scan_page-led_at :
        (xs : List ℕ) → take size (order ids) ≡ xs → scan_page env size k p next ≡ led xs
    unfolding scan_page
    scan_page-led_at [] e = ground (arith, query, valid [] e)
    scan_page-led_at (x ∷ xs) e = ground (
      arith,
      query,
      valid (x ∷ xs) e,
      admit_all (env.ended k) (env.hint k) 0 (x ∷ xs) p.after running room,
    )

    pub scan_page-led : scan_page env size k p next ≡ led (take size (order ids))
    scan_page-led = scan_page-led_at (take size (order ids)) refl

module _ (env : ScanEnv) (size : ℕ) (a : Accepting env) (z : (size == 0) ≡ false) where
  led-completes :
      (p : StoppingPosition) (next : StoppingPosition → Pass) (xs : List ℕ) (c : SqlCall)
      (b : Answering c)
      → All (λ y. y ≤ p.upper) xs
      → p.after ≤ p.upper
      → ((q : StoppingPosition)
          → (q.upper == 0) ≡ false
          → q.after ≤ q.upper
          → ((next q).finish ≡ complete) ⊎ ((next q).finish ≡ no_fuel))
      → (p.upper == 0) ≡ false
      → ((led c size p next b xs).finish ≡ complete) ⊎ ((led c size p next b xs).finish ≡ no_fuel)
  led-completes p next [] c b m o ih u = inl refl
  led-completes p next (x ∷ xs) c b m o ih u = elim (Bool-cases (last_or x xs == p.upper)) [
    | inl e ↦ inl (ground arith)
    | inr e ↦ rw e (ih (record p { after = last_or x xs }) u (last_bound p.upper x xs m.0 m.1))
  ]

  scan_pages-completes :
      (fuel k : ℕ) (p : StoppingPosition)
      → (p.upper == 0) ≡ false
      → p.after ≤ p.upper
      → ((scan_pages env size fuel k p).finish ≡ complete)
        ⊎ ((scan_pages env size fuel k p).finish ≡ no_fuel)
  unfolding scan_pages
  scan_pages-completes zero k p u o = inr refl
  scan_pages-completes (suc fuel) k p u o =
      let next = scan_pages env size fuel (k + 1) in
      let c = env.pages k in
      rw (scan_page-led c size p next (a.pages k) env k refl z u o (a.running k) (a.room k)) (
        led-completes p next _ c (a.pages k) (ids_below c size p next (a.pages k)) o
          (scan_pages-completes fuel (k + 1)) u)

  scan_from-completes :
      (p : StoppingPosition)
      → (p.upper == 0) ≡ false
      → p.after ≤ p.upper
      → (scan_from env size p).finish ≡ complete
  unfolding scan_from
  scan_from-completes p u o = elim (scan_pages-completes (suc (p.upper - p.after)) 0 p u o) [
    | inl h ↦ h
    | inr h ↦ absurd (scan_from-fuel env size p h)
  ]

  bound_read : sql_call env.bound stopping_upper_id ≡ ok (highest env.bound)
  unfolding stopping_upper_id
  bound_read = let b = a.bound in ground (arith, b.early, b.in_time, b.sound)

  pub scan-completes : ((scan env size start_position).finish ≡ complete) ⊎ (highest env.bound ≡ 0)
  unfolding scan
  scan-completes = elim (Bool-cases (highest env.bound == 0)) [
    | inl e ↦ inr (ground arith)
    | inr e ↦ inl (
        let f =
          scan_from-completes (record start_position { upper = highest env.bound }) e
            (omega arith) in
        ground (arith, bound_read, f))
  ]

-- In a pass from the start position with a positive page size, in which every query answers in time
-- over a table of positive distinct IDs, no Context ends and the queue accepts every hint, each
-- Instance with a positive ID that all its queries read in STOPPING gets its hint accepted, however
-- many pages that takes and whatever else changes in the table.
pub scan-hints :
    (id size : ℕ) (env : ScanEnv)
    → 0 < id
    → 0 < size
    → Accepting env
    → StopsThrough id env
    → elem id (scan env size start_position).hinted ≡ true
scan-hints id size env h z a s = elim (scan-Held id env size start_position s (h, inl refl)) [
  | inl e ↦ e
  | inr (n, b) ↦ elim (scan-completes env size a (ground arith)) [
    | inl e ↦ absurd (n e)
    | inr e ↦ absurd (let k = elem_first id _ (stopping_elem id env.bound.rows s.0) in omega arith)
  ]
]
