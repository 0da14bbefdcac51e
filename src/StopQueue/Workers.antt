-- ===== src/StopQueue/Workers.antt =====
-- instancestop/queue.go: what holds of the queue and its workers in every reachable state.
use dogx.Common.{
  ℕ, ◌+◌, ◌≤◌, ◌<◌, ◌≡◌, refl, sym, ==_refl, Bool, true, false, Option, none, some, List, [], ◌∷◌,
  length, count, arith,
}
use dogx.Database.{elem}
use dogx.StopQueue.{DrainError, StopQueue, hint, finish, finish_error}
use dogx.StopQueue.Steps.{
  System, Step, starts, hints, stops, drains, expires, cancels, takes_one, leaves, completes,
  finishes, Reach, initial, next, IsSound, initial-IsSound,
}
use dogx.StopQueue.Sound.{
  hint-IsSound, start-IsSound, stop-IsSound, expire-IsSound, cancel_run-IsSound, drain-IsSound,
  take-IsSound, leave-IsSound, complete-IsSound, finish-IsSound,
}

Step-IsSound :
    {capacity concurrency : ℕ} {s s' : System}
    → 0 < concurrency
    → Step concurrency s s'
    → IsSound capacity concurrency s
    → IsSound capacity concurrency s'
Step-IsSound {capacity = c} {concurrency = n} {s = s} p (starts q h) i = start-IsSound c n s i q h
Step-IsSound {capacity = c} {concurrency = n} {s = s} p (hints id) i = hint-IsSound c n s i id
Step-IsSound {capacity = c} {concurrency = n} {s = s} p stops i = stop-IsSound c n s i
Step-IsSound {capacity = c} {concurrency = n} {s = s} p (drains ended) i =
    drain-IsSound c n s i ended
Step-IsSound {capacity = c} {concurrency = n} {s = s} p expires i = expire-IsSound c n s i
Step-IsSound {capacity = c} {concurrency = n} {s = s} p cancels i = cancel_run-IsSound c n s i
Step-IsSound {capacity = c} {concurrency = n} {s = s} p (takes_one id q t l h) i =
    take-IsSound c n s i id q l h
Step-IsSound {capacity = c} {concurrency = n} {s = s} p (leaves t l h) i = leave-IsSound c n s i l h
Step-IsSound {capacity = c} {concurrency = n} {s = s} p (completes id more h) i =
    complete-IsSound c n s i id more h
Step-IsSound {capacity = c} {concurrency = n} {s = s} p (finishes t l) i =
    finish-IsSound c n s i l p

Reach-IsSound :
    {capacity concurrency : ℕ} {s : System}
    → 0 < concurrency
    → Reach capacity concurrency s
    → IsSound capacity concurrency s
Reach-IsSound p initial = initial-IsSound _ _
Reach-IsSound p (next r h) = Step-IsSound p h (Reach-IsSound p r)

-- In every state that a queue with at least one worker reaches, an Instance is in the hands of at most
-- one worker, and then does not stand in the pending list; the queue retains at most `capacity`
-- Instances, and every pending or held one is among them.
pub one_worker :
    {capacity concurrency : ℕ} (s : System) (id : ℕ)
    → 0 < concurrency
    → Reach capacity concurrency s
    → (count id s.queue.pending + count id s.busy ≤ 1)
      × (length s.queue.entries ≤ capacity)
      × (count id s.queue.entries ≡ count id s.queue.pending + count id s.busy)
one_worker s id p r =
    let i = Reach-IsSound p r in (omega (arith, i.held id, i.once id), i.bounded, sym (i.held id))

elem-count : (id : ℕ) (xs : List ℕ) → elem id xs ≡ true → 0 < count id xs
elem-count id [] h = cc
elem-count id (x ∷ xs) h = ground (arith, elem-count id xs)

hint-accepted : (id : ℕ) (q : StopQueue) → (hint id q).1 ≡ true → 0 < count id (hint id q).0.entries
unfolding hint
hint-accepted id q h = ground (arith, elem-count id q.entries, ==_refl id)

-- In every state that a queue with at least one worker reaches, a hint that is accepted stands in the
-- pending list or is in the hands of a worker, once.
pub hint_held :
    {capacity concurrency : ℕ} (s : System) (id : ℕ)
    → 0 < concurrency
    → Reach capacity concurrency s
    → (hint id s.queue).1 ≡ true
    → count id (hint id s.queue).0.pending + count id s.busy ≡ 1
hint_held s id p r h =
    let i = Reach-IsSound p (next r (hints id)) in
    omega (arith, i.held id, i.once id, hint-accepted id s.queue h)

-- The error that the end of the installed Context leaves, if it has ended.
abbrev pub context_error : Bool → Option DrainError
context_error true = some DrainError.context_expired
context_error false = none

finish-context_error :
    (q : StopQueue)
    → length q.entries ≡ 0
    → q.drain_error ≡ none
    → (finish q).drain_error ≡ context_error q.drain_expired
unfolding finish finish_error
finish-context_error q n e = ground arith

empty_of_length : (xs : List ℕ) → length xs ≡ 0 → xs ≡ []
empty_of_length [] h = refl
empty_of_length (x ∷ xs) h = absurd (omega arith)

-- When the workers of a reachable queue, at least one, have all returned and the run is not
-- cancelled, no Instance is left behind, and the end of the queue reports the error of Drain's
-- Context if this has ended, and no error otherwise.
pub drained :
    {capacity concurrency : ℕ} (s : System)
    → 0 < concurrency
    → Reach capacity concurrency s
    → s.left ≡ concurrency
    → s.queue.cancelled ≡ false
    → (s.queue.entries ≡ []) × ((finish s.queue).drain_error ≡ context_error s.queue.drain_expired)
drained s p r l c =
    let i = Reach-IsSound p r in
    let x = i.left_stops (omega arith) in
    let n : length s.queue.entries ≡ 0 = ground arith in
    (empty_of_length s.queue.entries n, finish-context_error s.queue n (i.no_error c))
