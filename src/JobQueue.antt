-- ===== src/JobQueue.antt =====
-- apps/job/rpc/internal/scheduler/queue.go: the bounded queue that merges trigger hints by Job.
-- Each method holds the mutex, so a history is a sequence of calls; a `take` that must wait leaves
-- the queue as it is. `panics` is a Go panic: a nil entry.
pub mod Ring
pub mod Sound
pub mod Offers
pub mod Takes
pub mod Calls
pub mod Hints
pub mod Fifo
pub mod Commands
pub mod Views
pub mod Refines
use dogx.Common.{
  ℕ, suc, ◌+◌, ◌-◌, ◌%◌, ◌==◌, if◌then◌else◌, Bool, true, false, Option, none, some, List, [], ◌∷◌,
  length,
}
use dogx.Common.Assoc.{lookup, assign, erase}
use Ring.{make, set, at, slots}

pub record PendingJob : Type 0 where
  pub processing : Bool
  pub dirty : Bool

-- `close` sets the map to nil, which reads like the empty one.
pub record JobQueue : Type 0 where
  pub jobs : List (ℕ × PendingJob)
  pub buffer : List ℕ
  pub head : ℕ
  pub size : ℕ
  pub closed : Bool

unfoldable pub new_job_queue : ℕ → JobQueue
new_job_queue capacity = record {
  jobs = [];
  buffer = make capacity;
  head = 0;
  size = 0;
  closed = false;
}

unfoldable pub push : ℕ → JobQueue → JobQueue
push id q = record q {
  buffer = set q.buffer ((q.head + q.size) % length q.buffer) id;
  size = q.size + 1;
}

unfoldable pub offer : ℕ → JobQueue → JobQueue × Bool
unfolding push
offer id q = if q.closed then (q, false) else elim (lookup id q.jobs) [
  | some existing ↦ (
    if existing.processing
        then record q { jobs = assign id (record existing { dirty = true }) q.jobs }
        else q,
    true,
  )
  | none ↦ if length q.jobs == length q.buffer then (q, false) else (
    push id (record q { jobs = (id, record { processing = false; dirty = false }) ∷ q.jobs }),
    true,
  )
]

pub data Taken : Type 0 where
  waits stopped panics : Taken
  takes : ℕ → JobQueue → Taken

unfoldable pub take : JobQueue → Taken
take q =
    if q.closed
    then stopped
    else if q.size == 0
    then waits
    else let id = at q.buffer q.head in
      elim (lookup id q.jobs) [
        | none ↦ panics
        | some job ↦ takes id (record q {
          head = (q.head + 1) % length q.buffer;
          size = q.size - 1;
          jobs = assign id (record job { processing = true }) q.jobs;
        })
      ]

-- `none` is the panic on an ID that was not taken.
unfoldable pub complete : ℕ → JobQueue → Option JobQueue
unfolding push
complete id q = if q.closed then some q else elim (lookup id q.jobs) [
  | none ↦ none
  | some job ↦ some (
      if job.dirty
      then push id
          (record q { jobs = assign id (record { processing = false; dirty = false }) q.jobs })
      else record q { jobs = erase id q.jobs })
]

unfoldable pub close : JobQueue → JobQueue
close q = record q { closed = true; jobs = []; size = 0 }

-- The queued IDs, oldest first.
unfoldable pub queued : JobQueue → List ℕ
queued q = slots q.buffer q.head 0 q.size
