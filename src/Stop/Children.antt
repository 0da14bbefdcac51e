-- ===== src/Stop/Children.antt =====
-- instancestop/controller.go: the children that one batch selects and cancels.
use dogx.Common.{
  ℕ, ◌+◌, ◌≡◌, refl, subst, inl, inr, ◌==◌, if◌then◌else◌, ◌&&◌, Bool, true, false, List, [], ◌∷◌,
  arith, Bool-cases, ◌≤◌, ◌<◌, ◌↔◌, length, select, map, All, ==_refl,
}
use dogx.Common.Sort.{
  order, DistinctIds, Ascends, Ascends-order, Ascends-take, All-order, All-take, length-take,
  length-order,
}
use dogx.Common.Rows.{DistinctIds-select}
use dogx.Model.Task.{JobTask}
use dogx.Database.{affected, update, elem}
use dogx.TaskStore.Outcome.{TaskCancellation, accepts_cancellation, cancelled}
use dogx.Stop.Batch.{task_id, is_unfinished_of, list_unfinished_ids, ascending, valid_ordered_ids}

-- The number of unfinished children.
abbrev pub unfinished : ℕ → List JobTask → ℕ
unfinished id ts = affected (is_unfinished_of id) ts

-- Rows of the table that the statement changes become finished, one by one.
pub unfinished-cancelled :
    (id : ℕ) (w : TaskCancellation) (ts : List JobTask)
    → w.instance_id ≡ id
    → unfinished id (update (accepts_cancellation w) (cancelled w) ts)
        + affected (accepts_cancellation w) ts
      ≡ unfinished id ts
unfolding accepts_cancellation cancelled
unfinished-cancelled id w [] e = refl
unfinished-cancelled id w (t ∷ ts) e = ground (arith, unfinished-cancelled id w ts e)

-- The rows with one of the IDs are no more than the IDs.
away_row :
    (x : ℕ) (ts : List JobTask)
    → All (λ y. (y == x) ≡ false) (map task_id ts)
    → affected (λ t. t.id == x) ts ≡ 0
away_row x [] h = refl
away_row x (t ∷ ts) h = rw h.0 (away_row x ts h.1)

hits_one :
    (x : ℕ) (ts : List JobTask) → DistinctIds (map task_id ts) → affected (λ t. t.id == x) ts ≤ 1
hits_one x [] d = omega arith
hits_one x (t ∷ ts) d = elim (Bool-cases (t.id == x)) [
  | inl e ↦
      let same : t.id ≡ x = ground arith in
      rw e (
        omega (
          arith,
          away_row x ts (subst (λ k. All (λ y. (y == k) ≡ false) (map task_id ts)) same d.1),
        ))
  | inr e ↦ rw e (hits_one x ts d.2)
]

hits_split :
    (x : ℕ) (xs : List ℕ) (ts : List JobTask)
    → affected (λ t. elem t.id (x ∷ xs)) ts
      ≤ affected (λ t. t.id == x) ts + affected (λ t. elem t.id xs) ts
hits_split x xs [] = omega arith
hits_split x xs (t ∷ ts) = ground (arith, hits_split x xs ts)

hits-le-length :
    (xs : List ℕ) (ts : List JobTask)
    → DistinctIds (map task_id ts)
    → affected (λ t. elem t.id xs) ts ≤ length xs
hits-le-length [] [] d = omega arith
hits-le-length [] (t ∷ ts) d = hits-le-length [] ts d.2
hits-le-length (x ∷ xs) ts d =
    omega (arith, hits_split x xs ts, hits_one x ts d, hits-le-length xs ts d)

affected_weaken :
    (p q : JobTask → Bool) (ts : List JobTask)
    → ((t : JobTask) → p t ≡ true → q t ≡ true)
    → affected p ts ≤ affected q ts
affected_weaken p q [] h = omega arith
affected_weaken p q (t ∷ ts) h = elim (Bool-cases (p t)) [
  | inl e ↦ rw (e, h t e) (omega (arith, affected_weaken p q ts h))
  | inr e ↦ rw e (let r = affected_weaken p q ts h in ground arith)
]

pub cancelled-le-length :
    (w : TaskCancellation) (ts : List JobTask)
    → DistinctIds (map task_id ts)
    → affected (accepts_cancellation w) ts ≤ length w.task_ids
unfolding accepts_cancellation
cancelled-le-length w ts d = omega (
  arith,
  hits-le-length w.task_ids ts d,
  affected_weaken (accepts_cancellation w) (λ t. elem t.id w.task_ids) ts (λ t a. ground arith),
)

abbrev is_child : ℕ → ℕ → JobTask → Bool
is_child id x t = t.id == x && is_unfinished_of id t

-- What holds of the IDs of the unfinished children, in whatever order and number they are read.
module _ (id : ℕ) where
  more_child :
      (x : ℕ) (t : JobTask) (ts : List JobTask)
      → 1 ≤ affected (is_child id x) ts
      → 1 ≤ affected (is_child id x) (t ∷ ts)
  more_child x t ts h = ground arith

  weaken_children :
      (t : JobTask) (ts : List JobTask) (xs : List ℕ)
      → All (λ x. 1 ≤ affected (is_child id x) ts) xs
      → All (λ x. 1 ≤ affected (is_child id x) (t ∷ ts)) xs
  weaken_children t ts [] h = tt
  weaken_children t ts (x ∷ xs) h = (more_child x t ts h.0, weaken_children t ts xs h.1)

  child_row :
      (t : JobTask) (ts : List JobTask) (b : Bool)
      → is_unfinished_of id t ≡ b
      → All (λ x. 1 ≤ affected (is_child id x) ts) (map task_id (select (is_unfinished_of id) ts))
      → All
          (λ x. 1 ≤ affected (is_child id x) (t ∷ ts))
          (map task_id
            (if b then t ∷ select (is_unfinished_of id) ts else select (is_unfinished_of id) ts))
  child_row t ts true e h = (
    ground (arith, ==_refl t.id),
    weaken_children t ts (map task_id (select (is_unfinished_of id) ts)) h,
  )
  child_row t ts false e h = weaken_children t ts (map task_id (select (is_unfinished_of id) ts)) h

  children_found :
      (ts : List JobTask)
      → All (λ x. 1 ≤ affected (is_child id x) ts) (map task_id (select (is_unfinished_of id) ts))
  children_found [] = tt
  children_found (t ∷ ts) = child_row t ts (is_unfinished_of id t) refl (children_found ts)

  length-ids :
      (ts : List JobTask)
      → length (map task_id (select (is_unfinished_of id) ts)) ≡ unfinished id ts
  length-ids [] = refl
  length-ids (t ∷ ts) = ground (arith, length-ids ts)

pub ascending_lem : (p : ℕ) (xs : List ℕ) → Ascends p xs → ascending p xs ≡ true
unfolding ascending
ascending_lem p [] h = refl
ascending_lem p (x ∷ xs) h = let less = h.0 in ground (arith, ascending_lem x xs h.1)

positive_of_Ascends : (p : ℕ) (xs : List ℕ) → Ascends p xs → elem 0 xs ≡ false
positive_of_Ascends p [] h = refl
positive_of_Ascends p (x ∷ xs) h = let less = h.0 in ground (arith, positive_of_Ascends x xs h.1)

-- The facts about one batch's selection.
module _ (id limit : ℕ) (ts : List JobTask) (d : DistinctIds (map task_id ts)) where
  abbrev ids : List ℕ
  ids = list_unfinished_ids id limit ts

  ids-Ascends : Ascends 0 ids
  unfolding list_unfinished_ids
  ids-Ascends =
      Ascends-take 0 limit _
        (Ascends-order _ (DistinctIds-select task_id (is_unfinished_of id) ts d))

  pub ids_positive : elem 0 ids ≡ false
  ids_positive = positive_of_Ascends 0 ids ids-Ascends

  pub ids_valid : valid_ordered_ids ids limit ≡ true
  unfolding valid_ordered_ids list_unfinished_ids
  ids_valid = ground (
    arith,
    ascending_lem 0 ids ids-Ascends,
    length-take limit (order (map task_id (select (is_unfinished_of id) ts))),
  )

  pub length-list_unfinished : 0 < limit → (length ids ≡ 0) ↔ (unfinished id ts ≡ 0)
  unfolding list_unfinished_ids
  length-list_unfinished h =
      let xs = map task_id (select (is_unfinished_of id) ts) in
      (
        (λ e. omega (arith, length-take limit (order xs), length-order xs, length-ids id ts)),
        (λ e. omega (arith, length-take limit (order xs), length-order xs, length-ids id ts)),
      )

  ids_found : All (λ x. 1 ≤ affected (is_child id x) ts) ids
  unfolding list_unfinished_ids
  ids_found = All-take _ limit _ (All-order _ _ (children_found id ts))

  -- A batch with an ID changes a row.
  pub some_cancelled :
      (w : TaskCancellation) (x : ℕ) (xs : List ℕ)
      → ids ≡ x ∷ xs
      → w.instance_id ≡ id
      → w.task_ids ≡ x ∷ xs
      → 1 ≤ affected (accepts_cancellation w) ts
  unfolding accepts_cancellation
  some_cancelled w x xs e i q =
      let f : All (λ y. 1 ≤ affected (is_child id y) ts) (x ∷ xs) =
        subst (All (λ y. 1 ≤ affected (is_child id y) ts)) e ids_found in
      omega (
        arith,
        f.0,
        affected_weaken (is_child id x) (accepts_cancellation w) ts (λ t a. rw q (ground arith)),
      )
