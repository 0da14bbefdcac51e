-- ===== src/CheckQueue/Steps.antt =====
-- instancecheck/queue.go: the queue with its workers. Each goroutine of `work` is idle, holds the entry
-- that it took, or has returned; `finish` runs when all have.
use dogx.Common.{
  ℕ, ◌+◌, ◌≤◌, ◌<◌, ◌≡◌, Bool, true, false, Option, none, some, List, [], ◌∷◌, length, count,
  remove, ◌⊎◌, if◌then◌else◌,
}
use dogx.Common.Assoc.{lookup, Distinct}
use dogx.Model.{Time}
use dogx.CheckQueue.{
  CheckEntry, CheckQueue, new_queue, start, hint, admitted, wait_recovery, stop, drain, expire,
  cancel_run, exits, takes, take, complete, finish,
}

-- `busy` are the IDs that workers hold, `left` counts the workers that have returned.
pub record System : Type 0 where
  pub queue : CheckQueue
  pub busy : List ℕ
  pub left : ℕ

-- One step, of a caller, of the recovery, or of one of `concurrency` workers.
pub data Step (concurrency : ℕ) (s : System) : System → Type 0 where
  starts : (q : CheckQueue) → start s.queue ≡ some q → Step concurrency s (record s { queue = q })
  hints : (now : Time) (id : ℕ) → Step concurrency s (record s { queue = (hint now id s.queue).0 })
  recovers :
      (ended : Bool) (now : Time) (id : ℕ) (q : CheckQueue)
      → wait_recovery ended now id s.queue ≡ admitted q
      → Step concurrency s (record s { queue = q })
  stops : Step concurrency s (record s { queue = stop s.queue })
  drains : (ended : Bool) → Step concurrency s (record s { queue = drain ended s.queue })
  expires : Step concurrency s (record s { queue = expire s.queue })
  cancels : Step concurrency s (record s { queue = cancel_run s.queue })
  takes_one :
      (now : Time) (id : ℕ) (q : CheckQueue)
      → s.queue.started ≡ true
      → length s.busy + s.left < concurrency
      → take now s.queue ≡ takes id q
      → Step concurrency s (record s { queue = q; busy = id ∷ s.busy })
  leaves :
      (now : Time)
      → s.queue.started ≡ true
      → length s.busy + s.left < concurrency
      → take now s.queue ≡ exits
      → Step concurrency s (record s { left = s.left + 1 })
  completes :
      (id : ℕ) (terminal : Bool)
      → 0 < count id s.busy
      → Step concurrency s
          (record s { queue = complete id terminal s.queue; busy = remove id s.busy })
  finishes :
      s.queue.started ≡ true
      → s.left ≡ concurrency
      → Step concurrency s (record s { queue = finish s.queue })

pub data Reach (capacity concurrency : ℕ) : System → Type 0 where
  initial : Reach capacity concurrency (record { queue = new_queue capacity; busy = []; left = 0 })
  next :
      {s s' : System}
      → Reach capacity concurrency s
      → Step concurrency s s'
      → Reach capacity concurrency s'

-- How often an ID stands in the pending list, and with workers, by its entry.
abbrev pub waiting : Option CheckEntry → ℕ
waiting none = 0
waiting (some e) = if e.processing then 0 else 1

abbrev pub working : Option CheckEntry → ℕ
working none = 0
working (some e) = if e.processing then 1 else 0

pub record IsSound (capacity concurrency : ℕ) (s : System) : Type 0 where
  pub same_capacity : s.queue.capacity ≡ capacity
  pub distinct : Distinct s.queue.entries
  pub bounded : length s.queue.entries ≤ capacity
  pub placed : (id : ℕ) → count id s.queue.pending ≡ waiting (lookup id s.queue.entries)
  pub held : (id : ℕ) → count id s.busy ≡ working (lookup id s.queue.entries)
  pub settled :
      (id : ℕ) (e : CheckEntry)
      → lookup id s.queue.entries ≡ some e
      → e.processing ≡ false
      → e.next_due ≡ 0
  pub workers : length s.busy + s.left ≤ concurrency
  pub drain_stops : s.queue.draining ≡ true → s.queue.stopping ≡ true
  pub no_error : s.queue.cancelled ≡ false → s.queue.drain_error ≡ none
  pub cancelled_stops : s.queue.cancelled ≡ true → s.queue.stopping ≡ true
  pub left_stops :
      0 < s.left
      → (s.queue.cancelled ≡ true) ⊎ ((s.queue.stopping ≡ true) × (length s.queue.entries ≡ 0))
