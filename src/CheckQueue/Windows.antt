-- ===== src/CheckQueue/Windows.antt =====
-- instancecheck/queue.go: hints, their merge windows, and the end, in every reachable state.
use dogx.Common.{
  ℕ, ◌+◌, ◌≤◌, ◌<◌, ◌≡◌, ==_refl, true, false, none, some, [], ◌∷◌, ◌++◌, length, count, arith,
  Bool, inl, inr, ◌⊎◌, Bool-cases, Option-cases, if◌then◌else◌, ltb, ◌==◌, is_some, not, ◌||◌,
}
use dogx.Common.Assoc.{lookup, assign, lookup-assign, length-assign}
use dogx.Model.{Time, is_zero}
use dogx.CheckQueue.{
  CheckEntry, CheckQueue, hint, finish, finish_error, merged, merge_entry, merge_window, complete,
  wait_recovery, admitted, half, admit_new, add_entry,
}
use dogx.CheckQueue.Steps.{System, Reach}
use dogx.StopQueue.Workers.{context_error}
use dogx.CheckQueue.Checked.{entry_of_busy}
use dogx.CheckQueue.Workers.{Reach-IsSound}

-- In every state that a queue of positive capacity with at least one worker reaches, in any
-- interleaving of hints, recovery, workers, Drain and cancellation, an Instance is pending or with a
-- worker exactly when the queue retains it, and then once and only one of the two; at most
-- `capacity` Instances are retained.
pub one_check :
    {capacity concurrency : ℕ} (s : System) (id : ℕ)
    → 0 < capacity
    → 0 < concurrency
    → Reach capacity concurrency s
    → (count id s.queue.pending + count id s.busy
        ≡ (if is_some (lookup id s.queue.entries) then 1 else 0))
      × (length s.queue.entries ≤ capacity)
one_check s id z p r =
    let i = Reach-IsSound z p r in
    (
      elim (Option-cases (lookup id s.queue.entries)) [
        | inl h ↦ ground (arith, i.placed id, i.held id)
        | inr (e, h) ↦ ground (arith, i.placed id, i.held id)
      ],
      i.bounded,
    )

-- The due time of the check that follows a hint at `now`: the first hint in a check sets it.
abbrev pub follow_up : Time → CheckEntry → Time
follow_up now e = if is_zero e.next_due then now + merge_window else e.next_due

completed_again :
    (q : CheckQueue) (id : ℕ) (e : CheckEntry) (m : CheckEntry)
    → lookup id q.entries ≡ some e
    → q.cancelled ≡ false
    → is_zero m.next_due ≡ false
    → let q' : CheckQueue = complete id false (record q { entries = assign id m q.entries }) in
      (q'.pending ≡ q.pending ++ id ∷ [])
      × (lookup id q'.entries
          ≡ some (record { due = m.next_due; processing = false; next_due = 0 }))
unfolding complete
completed_again q id e m h c z =
    let l : lookup id (assign id m q.entries) ≡ some m =
      ground (arith, lookup-assign id id m q.entries h, ==_refl id) in
    let n : CheckEntry = record { due = m.next_due; processing = false; next_due = 0 } in
    (ground arith, ground (arith, lookup-assign id id n (assign id m q.entries) l, ==_refl id))

-- A hint for an Instance that a worker is checking, accepted in a reachable state whose run is not
-- cancelled, is not lost: when that check ends without a terminal Instance, the Instance stands last
-- in the pending list, with all others in their order before it, and is due the merge window after
-- the first hint of this check.
pub hint_rechecked :
    {capacity concurrency : ℕ} (s : System) (now : Time) (id : ℕ)
    → 0 < capacity
    → 0 < concurrency
    → Reach capacity concurrency s
    → 0 < count id s.busy
    → (hint now id s.queue).1 ≡ true
    → s.queue.cancelled ≡ false
    → (e : CheckEntry) × (lookup id s.queue.entries ≡ some e)
      × ((complete id false (hint now id s.queue).0).pending ≡ s.queue.pending ++ id ∷ [])
      × (lookup id (complete id false (hint now id s.queue).0).entries
          ≡ some (record { due = follow_up now e; processing = false; next_due = 0 }))
unfolding hint merge_entry merged
hint_rechecked {capacity = c} {concurrency = n} s now id z p r b h k =
    let (e, l, g) = entry_of_busy c n s (Reach-IsSound z p r) id b in
    let a : (hint now id s.queue).0
        ≡ record s.queue { entries = assign id (merged now e) s.queue.entries } =
      ground arith in
    let m = completed_again s.queue id e (merged now e) l k (ground arith) in
    (e, l, rw a m.0, rw a (ground (arith, m.1)))

-- One round of the recovery's wait that admits, in any state, leaves the number of retained Instances
-- as it was, or adds one and then at most half of the capacity, rounded down and at least one, are
-- retained: the other places stay for hints.
pub room_kept :
    (q q' : CheckQueue) (ended : Bool) (now : Time) (id : ℕ)
    → wait_recovery ended now id q ≡ admitted q'
    → (length q'.entries ≡ length q.entries)
      ⊎ ((length q'.entries ≡ length q.entries + 1) × (length q'.entries ≤ half q.capacity))
unfolding wait_recovery admit_new merge_entry add_entry
room_kept q q' ended now id h =
    elim (Bool-cases (ended || not q.started || q.stopping || q.cancelled)) [
      | inl e ↦ absurd (ground arith)
      | inr e ↦ elim (Option-cases (lookup id q.entries)) [
        | inl m ↦ elim (Bool-cases (ltb (length q.entries) (half q.capacity))) [
          | inl l ↦ elim (Bool-cases (id == 0)) [
            | inl z ↦ inl (ground arith)
            | inr z ↦ inr (ground arith, ground arith)
          ]
          | inr l ↦ absurd (ground arith)
        ]
        | inr (f, m) ↦ inl (let n = length-assign id (merged now f) q.entries in ground arith)
      ]
    ]

finish-context_error :
    (q : CheckQueue)
    → length q.entries ≡ 0
    → q.drain_error ≡ none
    → (finish q).drain_error ≡ context_error q.drain_expired
unfolding finish finish_error
finish-context_error q n e = ground arith

-- When the workers of a reachable queue, at least one, have all returned and the run is not
-- cancelled, no Instance is retained, and the end of the queue reports the error of Drain's Context
-- if this has ended, and no error otherwise.
pub all_checked :
    {capacity concurrency : ℕ} (s : System)
    → 0 < capacity
    → 0 < concurrency
    → Reach capacity concurrency s
    → s.left ≡ concurrency
    → s.queue.cancelled ≡ false
    → (length s.queue.entries ≡ 0)
      × ((finish s.queue).drain_error ≡ context_error s.queue.drain_expired)
all_checked s z p r l c =
    let i = Reach-IsSound z p r in
    let x = i.left_stops (omega arith) in
    let n : length s.queue.entries ≡ 0 = ground arith in
    (n, finish-context_error s.queue n (i.no_error c))
