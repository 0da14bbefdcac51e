-- ===== src/CheckQueue.antt =====
-- apps/job/internal/instancecheck/queue.go: the queue of Instances to check, with its merge window. Each
-- method holds the mutex and is one step; `now` is what time.Now answers in it. The pending list holds
-- pointers to entries of the map, here their IDs. `cancelled` is `runCtx.Err() != nil`, `drain_expired`
-- the error of the installed drain Context; channels, logging and the recovery from a panic are left out.
pub mod Steps
pub mod Takes
pub mod Sound
pub mod Worked
pub mod Checked
pub mod Workers
pub mod Windows
use dogx.Common.{
  ℕ, ◌+◌, ◌/◌, ◌==◌, leb, ltb, is_some, if◌then◌else◌, ◌&&◌, ◌||◌, not, Bool, true, false, Option,
  none, some, List, [], ◌∷◌, ◌++◌, length,
}
use dogx.Common.Assoc.{lookup, assign, erase}
use dogx.Model.{Time, is_zero}
use dogx.StopQueue.{DrainError}

-- 100 milliseconds
abbrev pub merge_window : Time
merge_window = 100_000_000

pub record CheckEntry : Type 0 where
  pub due : Time
  pub processing : Bool
  pub next_due : Time

pub record CheckQueue : Type 0 where
  pub capacity : ℕ
  pub started : Bool
  pub stopping : Bool
  pub completed : Bool
  pub cancelled : Bool
  pub draining : Bool
  pub drain_expired : Bool
  pub drain_error : Option DrainError
  pub full_logged : Bool
  pub entries : List (ℕ × CheckEntry)
  pub pending : List ℕ

unfoldable pub new_queue : ℕ → CheckQueue
new_queue capacity = record {
  capacity = capacity;
  started = false;
  stopping = false;
  completed = false;
  cancelled = false;
  draining = false;
  drain_expired = false;
  drain_error = none;
  full_logged = false;
  entries = [];
  pending = [];
}

-- `none` is the error of a second start.
unfoldable pub start : CheckQueue → Option CheckQueue
start q = if q.started || q.stopping then none else some (record q { started = true })

-- The entry after a hint that finds it.
unfoldable pub merged : Time → CheckEntry → CheckEntry
merged now e =
    if e.processing && is_zero e.next_due then record e { next_due = now + merge_window } else e

unfoldable pub merge_entry : Time → ℕ → CheckQueue → Option CheckQueue
unfolding merged
merge_entry now id q = elim (lookup id q.entries) [
  | none ↦ none
  | some e ↦ some (record q { entries = assign id (merged now e) q.entries })
]

unfoldable pub add_entry : Time → ℕ → CheckQueue → CheckQueue
add_entry now id q = record q {
  entries = (id, record { due = now + merge_window; processing = false; next_due = 0 }) ∷ q.entries;
  pending = q.pending ++ id ∷ [];
}

unfoldable pub hint : Time → ℕ → CheckQueue → CheckQueue × Bool
unfolding merge_entry add_entry
hint now id q =
    if id == 0 || not q.started || q.stopping then (q, false) else elim (merge_entry now id q) [
      | some q' ↦ (q', true)
      | none ↦
          if length q.entries == q.capacity
          then (record q { full_logged = true }, false)
          else (add_entry now id q, true)
    ]

-- How one round of waitRecovery ends: with an error, with the wait for a change, or admitted.
pub data Recovered : Type 0 where
  context_ended unavailable must_wait : Recovered
  admitted : CheckQueue → Recovered

abbrev pub half : ℕ → ℕ
half capacity = let h = capacity / 2 in if h == 0 then 1 else h

-- The part of a round behind the merge.
unfoldable pub admit_new : Time → ℕ → CheckQueue → Recovered
unfolding add_entry
admit_new now id q =
    if ltb (length q.entries) (half q.capacity)
    then admitted (if id == 0 then q else add_entry now id q)
    else must_wait

-- One round of waitRecovery; `id` is 0 for WaitRecoveryCapacity.
unfoldable pub wait_recovery : Bool → Time → ℕ → CheckQueue → Recovered
unfolding merge_entry admit_new
wait_recovery ended now id q =
    if ended
    then context_ended
    else if not q.started || q.stopping || q.cancelled
    then unavailable
    else if id == 0
    then admit_new now id q
    else elim (merge_entry now id q) [ some q' ↦ admitted q' | none ↦ admit_new now id q ]

unfoldable pub stop : CheckQueue → CheckQueue
stop q = if q.stopping then q else record q {
  stopping = true;
  completed = q.completed || not q.started;
  cancelled = q.cancelled || not q.started;
}

-- The part of Drain before its wait, with whether its Context has ended already.
unfoldable pub drain : Bool → CheckQueue → CheckQueue
unfolding stop
drain ended q =
    let s = stop q in
    if s.completed || s.draining
    then s
    else record s { draining = true; drain_expired = ended; cancelled = s.cancelled || ended }

-- The end of the installed Context; the run is cancelled by a goroutine of its own.
unfoldable pub expire : CheckQueue → CheckQueue
expire q = if q.draining && not q.completed then record q { drain_expired = true } else q

-- The cancellation that the end of the installed Context sets off.
unfoldable pub cancel_run : CheckQueue → CheckQueue
cancel_run q = if q.draining && q.drain_expired then record q { cancelled = true } else q

-- `waits` with the earliest due time of the pending entries, if there is one.
pub data Taken : Type 0 where
  exits : Taken
  waits : Option Time → Taken
  takes : ℕ → CheckQueue → Taken

-- The first pending ID that is due, with the list without it; or the earliest due time.
pub data Search : Type 0 where
  none_due : Option Time → Search
  found : ℕ → List ℕ → Search

abbrev pub due_of : List (ℕ × CheckEntry) → ℕ → Time
due_of entries id = elim (lookup id entries) [ none ↦ 0 | some e ↦ e.due ]

abbrev pub earlier : Option Time → Time → Option Time
earlier none t = some t
earlier (some s) t = if ltb t s then some t else some s

abbrev pub kept : ℕ → Search → Search
kept id (none_due t) = none_due t
kept id (found j rest) = found j (id ∷ rest)

unfoldable pub search : Time → List (ℕ × CheckEntry) → List ℕ → Option Time → Search
search now entries [] earliest = none_due earliest
search now entries (id ∷ ids) earliest =
    let rest = search now entries ids (earlier earliest (due_of entries id)) in
    if leb (due_of entries id) now then found id ids else kept id rest

abbrev pub started_check : List (ℕ × CheckEntry) → ℕ → List (ℕ × CheckEntry)
started_check entries id = elim (lookup id entries) [
  | none ↦ entries
  | some e ↦ assign id (record e { processing = true }) entries
]

unfoldable pub take : Time → CheckQueue → Taken
take now q =
    if q.cancelled || q.stopping && length q.entries == 0
    then exits
    else elim (search now q.entries q.pending none) [
      | none_due earliest ↦ waits earliest
      | found id rest ↦ takes id (record q { pending = rest; entries = started_check q.entries id })
    ]

-- The end of a check: another one where a hint came meanwhile.
unfoldable pub complete : ℕ → Bool → CheckQueue → CheckQueue
complete id terminal q = elim (lookup id q.entries) [
  | none ↦ record q { full_logged = false }
  | some e ↦
      if not terminal && not (is_zero e.next_due) && not q.cancelled
      then record q {
        entries =
            assign id (record { due = e.next_due; processing = false; next_due = 0 }) q.entries;
        pending = q.pending ++ id ∷ [];
      }
      else record q { entries = erase id q.entries; full_logged = false }
]

-- drainErr after all workers have returned.
unfoldable pub finish_error : CheckQueue → Option DrainError
finish_error q =
    let error = if q.drain_expired then some DrainError.context_expired else q.drain_error in
    if length q.entries == 0 || is_some error
    then error
    else some (if q.cancelled then DrainError.run_cancelled else DrainError.pending_hints)

unfoldable pub finish : CheckQueue → CheckQueue
unfolding finish_error
finish q = record q {
  drain_error = finish_error q;
  pending = [];
  entries = [];
  cancelled = true;
  completed = true;
}
