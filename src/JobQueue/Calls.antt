-- ===== src/JobQueue/Calls.antt =====
-- queue.go: the calls in any order, by any number of workers.
use dogx.Common.{ℕ, ◌<◌, ◌≡◌, subst, Bool, true, false, some, arith, Bool-cases, inl, inr}
use dogx.Common.Assoc.{lookup, erase}
use dogx.JobQueue.{PendingJob, JobQueue, new_job_queue, offer, Taken, takes, take, complete, close}
use dogx.JobQueue.Sound.{IsSound, new_job_queue-IsSound, close-IsSound}
use dogx.JobQueue.Offers.{
  requeued, Offered, refused_closed, refused_full, merged, noted, accepted, offer-Offered,
  marked-IsSound, added-IsSound, requeued-IsSound, erased-IsSound,
}
use dogx.JobQueue.Takes.{taken-IsSound, TakeOf, of_closed, of_empty, of_oldest, take-TakeOf}

module _ (q : JobQueue) (id : ℕ) (e : PendingJob) (c : q.closed ≡ false)
    (l : lookup id q.jobs ≡ some e) where
  pub complete_again : e.dirty ≡ true → complete id q ≡ some (requeued q id)
  unfolding complete
  complete_again d = ground arith

  pub complete_gone : e.dirty ≡ false → complete id q ≡ some (record q { jobs = erase id q.jobs })
  unfolding complete
  complete_gone d = ground arith

pub complete_closed : (q : JobQueue) (id : ℕ) → q.closed ≡ true → complete id q ≡ some q
unfolding complete
complete_closed q id c = ground arith

-- A call by the owner or a worker. A worker completes only the IDs that it has taken.
pub data Call (q : JobQueue) : JobQueue → Type 0 where
  offers : (id : ℕ) → Call q (offer id q).0
  takes_next : (id : ℕ) (q' : JobQueue) → take q ≡ takes id q' → Call q q'
  completes :
      (id : ℕ) (e : PendingJob) (q' : JobQueue)
      → lookup id q.jobs ≡ some e
      → e.processing ≡ true
      → complete id q ≡ some q'
      → Call q q'
  completes_late : (id : ℕ) (q' : JobQueue) → q.closed ≡ true → complete id q ≡ some q' → Call q q'
  closes : Call q (close q)

pub data Reach (capacity : ℕ) : JobQueue → Type 0 where
  start : Reach capacity (new_job_queue capacity)
  next : {q q' : JobQueue} → Reach capacity q → Call q q' → Reach capacity q'

Offered-IsSound :
    {q : JobQueue} {id : ℕ} {r : JobQueue × Bool} → IsSound q → Offered q id r → IsSound r.0
Offered-IsSound s (refused_closed c) = s
Offered-IsSound s (refused_full c l f) = s
Offered-IsSound s (merged e c l p) = s
Offered-IsSound {q} {id} s (noted e c l p) = marked-IsSound q s id e l p
Offered-IsSound {q} {id} s (accepted c l f) =
    added-IsSound q s id l (let b = s.bounded in ground arith)

TakeOf-IsSound :
    {q : JobQueue} (id : ℕ) (q' : JobQueue) {t : Taken}
    → IsSound q
    → TakeOf q t
    → t ≡ takes id q'
    → IsSound q'
TakeOf-IsSound id q' s (of_closed c) h = cc
TakeOf-IsSound id q' s (of_empty c z) h = cc
TakeOf-IsSound {q} id q' s (of_oldest j e c n i l) h =
    subst IsSound (ground arith) (taken-IsSound q s j e n i l)

complete-IsSound :
    (q : JobQueue) (id : ℕ) (e : PendingJob) (q' : JobQueue)
    → IsSound q
    → lookup id q.jobs ≡ some e
    → e.processing ≡ true
    → complete id q ≡ some q'
    → IsSound q'
complete-IsSound q id e q' s l p h = elim (Bool-cases q.closed) [
  | inl c ↦ subst IsSound (let k = complete_closed q id c in ground arith) s
  | inr c ↦ elim (Bool-cases e.dirty) [
    | inl d ↦
        subst IsSound (let k = complete_again q id e c l d in ground arith)
          (requeued-IsSound q s id e l d)
    | inr d ↦
        subst IsSound (let k = complete_gone q id e c l d in ground arith)
          (erased-IsSound q s id e l p)
  ]
]

pub Call-IsSound : {q q' : JobQueue} → Call q q' → IsSound q → IsSound q'
Call-IsSound {q} (offers id) s = Offered-IsSound s (offer-Offered q id)
Call-IsSound {q} (takes_next id q' h) s = TakeOf-IsSound id q' s (take-TakeOf q s) h
Call-IsSound {q} (completes id e q' l p h) s = complete-IsSound q id e q' s l p h
Call-IsSound {q} (completes_late id q' c h) s =
    subst IsSound (let k = complete_closed q id c in ground arith) s
Call-IsSound {q} closes s = close-IsSound q s

pub Reach-IsSound : {capacity : ℕ} {q : JobQueue} → 0 < capacity → Reach capacity q → IsSound q
Reach-IsSound h start = new_job_queue-IsSound _ h
Reach-IsSound h (next r c) = Call-IsSound c (Reach-IsSound h r)
