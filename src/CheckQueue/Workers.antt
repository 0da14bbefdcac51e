-- ===== src/CheckQueue/Workers.antt =====
-- instancecheck/queue.go: what holds of the queue and its workers in every reachable state.
use dogx.Common.{ℕ, ◌<◌}
use dogx.CheckQueue.Steps.{
  System, Step, starts, hints, recovers, stops, drains, expires, cancels, takes_one, leaves,
  completes, finishes, Reach, initial, next, IsSound,
}
use dogx.CheckQueue.Sound.{initial-IsSound, hint-IsSound}
use dogx.CheckQueue.Worked.{
  recover-IsSound, start-IsSound, stop-IsSound, expire-IsSound, cancel_run-IsSound, drain-IsSound,
}
use dogx.CheckQueue.Checked.{take-IsSound, leave-IsSound, complete-IsSound, finish-IsSound}

Step-IsSound :
    {capacity concurrency : ℕ} {s s' : System}
    → 0 < capacity
    → 0 < concurrency
    → Step concurrency s s'
    → IsSound capacity concurrency s
    → IsSound capacity concurrency s'
Step-IsSound {capacity = c} {concurrency = n} {s = s} z p (starts q h) i = start-IsSound c n s i q h
Step-IsSound {capacity = c} {concurrency = n} {s = s} z p (hints now id) i =
    hint-IsSound c n s i now id
Step-IsSound {capacity = c} {concurrency = n} {s = s} z p (recovers ended now id q h) i =
    recover-IsSound c n s i ended now id q z h
Step-IsSound {capacity = c} {concurrency = n} {s = s} z p stops i = stop-IsSound c n s i
Step-IsSound {capacity = c} {concurrency = n} {s = s} z p (drains ended) i =
    drain-IsSound c n s i ended
Step-IsSound {capacity = c} {concurrency = n} {s = s} z p expires i = expire-IsSound c n s i
Step-IsSound {capacity = c} {concurrency = n} {s = s} z p cancels i = cancel_run-IsSound c n s i
Step-IsSound {capacity = c} {concurrency = n} {s = s} z p (takes_one now id q t l h) i =
    take-IsSound c n s i now id q l h
Step-IsSound {capacity = c} {concurrency = n} {s = s} z p (leaves now t l h) i =
    leave-IsSound c n s i now l h
Step-IsSound {capacity = c} {concurrency = n} {s = s} z p (completes id terminal h) i =
    complete-IsSound c n s i id terminal h
Step-IsSound {capacity = c} {concurrency = n} {s = s} z p (finishes t l) i =
    finish-IsSound c n s i l p

pub Reach-IsSound :
    {capacity concurrency : ℕ} {s : System}
    → 0 < capacity
    → 0 < concurrency
    → Reach capacity concurrency s
    → IsSound capacity concurrency s
Reach-IsSound z p initial = initial-IsSound _ _
Reach-IsSound z p (next r h) = Step-IsSound z p h (Reach-IsSound z p r)
