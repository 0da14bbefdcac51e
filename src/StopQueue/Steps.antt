-- ===== src/StopQueue/Steps.antt =====
-- instancestop/queue.go: the queue with its workers. Each goroutine of `work` is idle, holds the one ID
-- that it took, or has returned; `finish` runs when all have.
use dogx.Common.{
  ℕ, ◌+◌, ◌≤◌, ◌<◌, ◌≡◌, refl, subst, ◌==◌, Bool, true, false, ◌&&◌, ◌||◌, none, some, List, [],
  ◌∷◌, length, count, remove, arith, Bool-cases, inl, inr, ◌⊎◌,
}
use dogx.Database.{elem}
use dogx.StopQueue.{
  StopQueue, new_queue, start, hint, stop, drain, expire, cancel_run, Taken, exits, waits, takes,
  take, complete, finish,
}

-- `busy` are the IDs that workers hold, `left` counts the workers that have returned.
pub record System : Type 0 where
  pub queue : StopQueue
  pub busy : List ℕ
  pub left : ℕ

-- One step, of a caller or of one of `concurrency` workers.
pub data Step (concurrency : ℕ) (s : System) : System → Type 0 where
  starts : (q : StopQueue) → start s.queue ≡ some q → Step concurrency s (record s { queue = q })
  hints : (id : ℕ) → Step concurrency s (record s { queue = (hint id s.queue).0 })
  stops : Step concurrency s (record s { queue = stop s.queue })
  drains : (ended : Bool) → Step concurrency s (record s { queue = drain ended s.queue })
  expires : Step concurrency s (record s { queue = expire s.queue })
  cancels : Step concurrency s (record s { queue = cancel_run s.queue })
  takes_one :
      (id : ℕ) (q : StopQueue)
      → s.queue.started ≡ true
      → length s.busy + s.left < concurrency
      → take s.queue ≡ takes id q
      → Step concurrency s (record s { queue = q; busy = id ∷ s.busy })
  leaves :
      s.queue.started ≡ true
      → length s.busy + s.left < concurrency
      → take s.queue ≡ exits
      → Step concurrency s (record s { left = s.left + 1 })
  completes :
      (id : ℕ) (more : Bool)
      → 0 < count id s.busy
      → Step concurrency s (record s { queue = complete id more s.queue; busy = remove id s.busy })
  finishes :
      s.queue.started ≡ true
      → s.left ≡ concurrency
      → Step concurrency s (record s { queue = finish s.queue })

pub data Reach (capacity concurrency : ℕ) : System → Type 0 where
  initial : Reach capacity concurrency (record { queue = new_queue capacity; busy = []; left = 0 })
  next :
      {s s' : System}
      → Reach capacity concurrency s
      → Step concurrency s s'
      → Reach capacity concurrency s'

-- Every entry stands either in the pending list or with one worker, once.
pub record IsSound (capacity concurrency : ℕ) (s : System) : Type 0 where
  pub same_capacity : s.queue.capacity ≡ capacity
  pub bounded : length s.queue.entries ≤ capacity
  pub once : (id : ℕ) → count id s.queue.entries ≤ 1
  pub held : (id : ℕ) → count id s.queue.pending + count id s.busy ≡ count id s.queue.entries
  pub workers : length s.busy + s.left ≤ concurrency
  pub drain_stops : s.queue.draining ≡ true → s.queue.stopping ≡ true
  pub no_error : s.queue.cancelled ≡ false → s.queue.drain_error ≡ none
  pub cancelled_stops : s.queue.cancelled ≡ true → s.queue.stopping ≡ true
  pub left_stops :
      0 < s.left
      → (s.queue.cancelled ≡ true) ⊎ ((s.queue.stopping ≡ true) × (length s.queue.entries ≡ 0))

pub initial-IsSound :
    (capacity concurrency : ℕ)
    → IsSound capacity concurrency (record { queue = new_queue capacity; busy = []; left = 0 })
unfolding new_queue
initial-IsSound capacity concurrency = record {
  same_capacity = refl;
  bounded = omega arith;
  once = λ id. omega arith;
  held = λ id. refl;
  workers = omega arith;
  drain_stops = λ h. cc;
  no_error = λ h. refl;
  cancelled_stops = λ h. cc;
  left_stops = λ h. absurd (omega arith);
}

pub count-zero_of_elem : (id : ℕ) (xs : List ℕ) → elem id xs ≡ false → count id xs ≡ 0
count-zero_of_elem id [] h = refl
count-zero_of_elem id (x ∷ xs) h = ground (arith, count-zero_of_elem id xs)

count-eq_zero : (id : ℕ) (xs : List ℕ) → length xs ≡ 0 → count id xs ≡ 0
count-eq_zero id [] h = refl
count-eq_zero id (x ∷ xs) h = omega arith

pub count-le-length : (id : ℕ) (xs : List ℕ) → count id xs ≤ length xs
count-le-length id [] = omega arith
count-le-length id (x ∷ xs) = ground (arith, count-le-length id xs)

-- The oldest pending ID is taken, from a queue that has not been cancelled.
pub data TakeOf (q : StopQueue) : Taken → Type 0 where
  of_end : (q.cancelled ≡ true) ⊎ ((q.stopping ≡ true) × (length q.entries ≡ 0)) → TakeOf q exits
  of_none : q.cancelled ≡ false → q.pending ≡ [] → TakeOf q waits
  of_first :
      (id : ℕ) (rest : List ℕ)
      → q.cancelled ≡ false
      → q.pending ≡ id ∷ rest
      → TakeOf q (takes id (record q { pending = rest }))

List-cases : (xs : List ℕ) → (xs ≡ []) ⊎ ((x : ℕ) × (rest : List ℕ) × (xs ≡ x ∷ rest))
List-cases [] = inl refl
List-cases (x ∷ rest) = inr (x, rest, refl)

pub take-TakeOf : (q : StopQueue) → TakeOf q (take q)
unfolding take
take-TakeOf q = elim (Bool-cases (q.cancelled || q.stopping && length q.entries == 0)) [
  | inl e ↦ subst (TakeOf q) (ground arith) (of_end (ground arith))
  | inr e ↦ elim (List-cases q.pending) [
    | inl p ↦ subst (TakeOf q) (ground arith) (of_none (ground arith) p)
    | inr (id, rest, p) ↦ subst (TakeOf q) (ground arith) (of_first id rest (ground arith) p)
  ]
]
