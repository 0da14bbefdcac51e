-- ===== src/StopQueue.antt =====
-- apps/job/internal/instancestop/queue.go: the queue of Instances whose stop is to be carried out.
-- Each method holds the mutex and is one step. `cancelled` is `runCtx.Err() != nil`, `drain_expired`
-- the error of the installed drain Context; channels and logging are left out, and so is the recovery
-- from a panic, since the processor of the model returns.
pub mod Turns
pub mod Steps
pub mod Sound
pub mod Workers
pub mod Quiet
pub mod Carried
pub mod Converges
use dogx.Common.{
  ℕ, is_some, ◌==◌, if◌then◌else◌, ◌&&◌, ◌||◌, not, Bool, true, false, Option, none, some, List, [],
  ◌∷◌, ◌++◌, length, remove,
}
use dogx.Database.{elem}

-- errors of Drain: the Context's, a cancelled queue's, or hints that no worker took.
pub data DrainError : Type 0 where
  context_expired run_cancelled pending_hints : DrainError

pub record StopQueue : Type 0 where
  pub capacity : ℕ
  pub started : Bool
  pub stopping : Bool
  pub completed : Bool
  pub cancelled : Bool
  pub draining : Bool
  pub drain_expired : Bool
  pub drain_error : Option DrainError
  pub full_logged : Bool
  pub entries : List ℕ
  pub pending : List ℕ

unfoldable pub new_queue : ℕ → StopQueue
new_queue capacity = record {
  capacity = capacity;
  started = false;
  stopping = false;
  completed = false;
  cancelled = false;
  draining = false;
  drain_expired = false;
  drain_error = none;
  full_logged = false;
  entries = [];
  pending = [];
}

-- `none` is the error of a second start.
unfoldable pub start : StopQueue → Option StopQueue
start q = if q.started || q.stopping then none else some (record q { started = true })

unfoldable pub hint : ℕ → StopQueue → StopQueue × Bool
hint id q =
    if id == 0 || not q.started || q.stopping
    then (q, false)
    else if elem id q.entries
    then (q, true)
    else if length q.entries == q.capacity
    then (record q { full_logged = true }, false)
    else (record q { entries = id ∷ q.entries; pending = q.pending ++ id ∷ [] }, true)

unfoldable pub stop : StopQueue → StopQueue
stop q = if q.stopping then q else record q {
  stopping = true;
  completed = q.completed || not q.started;
  cancelled = q.cancelled || not q.started;
}

-- The part of Drain before its wait, with whether its Context has ended already.
unfoldable pub drain : Bool → StopQueue → StopQueue
unfolding stop
drain ended q =
    let s = stop q in
    if s.completed || s.draining
    then s
    else record s { draining = true; drain_expired = ended; cancelled = s.cancelled || ended }

-- The end of the installed Context; the run is cancelled by a goroutine of its own.
unfoldable pub expire : StopQueue → StopQueue
expire q = if q.draining && not q.completed then record q { drain_expired = true } else q

-- The cancellation that the end of the installed Context sets off.
unfoldable pub cancel_run : StopQueue → StopQueue
cancel_run q = if q.draining && q.drain_expired then record q { cancelled = true } else q

pub data Taken : Type 0 where
  exits waits : Taken
  takes : ℕ → StopQueue → Taken

unfoldable pub take : StopQueue → Taken
take q =
    if q.cancelled || q.stopping && length q.entries == 0
    then exits
    else elim q.pending [ [] ↦ waits | id ∷ rest ↦ takes id (record q { pending = rest }) ]

unfoldable pub complete : ℕ → Bool → StopQueue → StopQueue
complete id more q =
    if more && not q.cancelled
    then record q { pending = q.pending ++ id ∷ [] }
    else record q { entries = remove id q.entries; full_logged = false }

-- drainErr after all workers have returned.
unfoldable pub finish_error : StopQueue → Option DrainError
finish_error q =
    if q.drain_expired
    then some DrainError.context_expired
    else if length q.entries == 0 || is_some q.drain_error
    then q.drain_error
    else some (if q.cancelled then DrainError.run_cancelled else DrainError.pending_hints)

unfoldable pub finish : StopQueue → StopQueue
unfolding finish_error
finish q = record q {
  drain_error = finish_error q;
  pending = [];
  entries = [];
  cancelled = true;
  completed = true;
}
