-- ===== src/JobQueue/Refines.antt =====
-- queue.go: the ring buffer with its map behaves as the queue of JobQueue/Fifo, call by call and in
-- whole histories of calls.
use dogx.Common.{
  ℕ, ◌<◌, ◌≡◌, refl, ◌∙◌, ap, Bool, true, Option, none, some, List, [], ◌∷◌, arith, Bool-cases,
  Option-cases, inl, inr,
}
use dogx.Common.Assoc.{lookup}
use dogx.JobQueue
use dogx.JobQueue.{PendingJob, JobQueue, new_job_queue, push, queued}
use dogx.JobQueue.Ring.{slots, length-make}
use dogx.JobQueue.Takes.{queued-taken, TakeOf, of_closed, of_empty, of_oldest, take-TakeOf}
use dogx.JobQueue.Sound.{IsSound, new_job_queue-IsSound}
use dogx.JobQueue.Offers.{offer-Offered}
use dogx.JobQueue.Calls.{complete_again, complete_gone, complete_closed, Call, Call-IsSound}
use dogx.JobQueue.Commands.{
  Command, offers, completes, takes_next, closes, offered, was_closed, took_from, completed_to,
  exec, perform, is_allowed, run, run_fifo, are_allowed,
}
use dogx.JobQueue.Fifo
use dogx.JobQueue.Fifo.{Fifo, Fifo-ext, new_fifo, with_busy}
use dogx.JobQueue.Views.{view, view-offer, view-taken, view-requeued, view-erased}

queued_none : (q : JobQueue) → q.size ≡ 0 → queued q ≡ []
unfolding queued slots
queued_none q z = ap (slots q.buffer q.head 0) z

module _ (q : JobQueue) (s : IsSound q) where
  view-take :
      (t : JobQueue.Taken)
      → TakeOf q t
      → (view (took_from q t).0, (took_from q t).1) ≡ perform takes_next (view q)
  unfolding perform Fifo.take
  view-take _ (of_closed c) = ground arith
  view-take _ (of_empty c z) = ground (arith, queued_none q z)
  view-take _ (of_oldest id e c n i l) =
      rw (view-taken q s id e l i n)
        (ground (arith, s.placed id, queued-taken q id e s.head_in n i, s.dirty_taken id e l))

  view-complete :
      (id : ℕ)
      → is_allowed (completes id) (view q) ≡ true
      → (
        view (completed_to q (JobQueue.complete id q)).0,
        (completed_to q (JobQueue.complete id q)).1,
      )
        ≡ perform (completes id) (view q)
  unfolding perform Fifo.complete is_allowed
  view-complete id a = elim (Bool-cases q.closed) [
    | inl c ↦ ground (arith, complete_closed q id c)
    | inr c ↦ elim (Option-cases (lookup id q.jobs)) [
      | inl l ↦ absurd (ground arith)
      | inr (e, l) ↦ elim (Bool-cases e.dirty) [
        | inl d ↦
            rw (complete_again q id e c l d, view-requeued q s id e l (ground arith)) (ground arith)
        | inr d ↦ rw (complete_gone q id e c l d, view-erased q s id e l) (ground arith)
      ]
    ]
  ]

  view-close : view (JobQueue.close q) ≡ Fifo.close (view q)
  unfolding JobQueue.close Fifo.close queued slots lookup
  view-close = refl

  view-exec :
      (c : Command)
      → is_allowed c (view q) ≡ true
      → (view (exec c q).0, (exec c q).1) ≡ perform c (view q)
  unfolding exec
  view-exec (offers id) a =
      let e = view-offer q s id (JobQueue.offer id q) (offer-Offered q id) in
      unfold perform in ap (λ (r : Fifo × Bool). (r.0, offered r.1)) e
  view-exec takes_next a = view-take (JobQueue.take q) (take-TakeOf q s)
  view-exec (completes id) a = view-complete id a
  view-exec closes a = unfold perform in ap (λ (r : Fifo). (r, was_closed)) view-close

  took-IsSound : (t : JobQueue.Taken) → JobQueue.take q ≡ t → IsSound (took_from q t).0
  took-IsSound JobQueue.waits h = s
  took-IsSound JobQueue.stopped h = s
  took-IsSound JobQueue.panics h = s
  took-IsSound (JobQueue.takes id q') h = Call-IsSound (Call.takes_next id q' h) s

  completed-IsSound :
      (id : ℕ)
      → is_allowed (completes id) (view q) ≡ true
      → (r : Option JobQueue) → JobQueue.complete id q ≡ r
      → IsSound (completed_to q r).0
  unfolding is_allowed
  completed-IsSound id a none h = s
  completed-IsSound id a (some q') h = elim (Bool-cases q.closed) [
    | inl c ↦ Call-IsSound (Call.completes_late id q' c h) s
    | inr c ↦ elim (Option-cases (lookup id q.jobs)) [
      | inl l ↦ absurd (ground arith)
      | inr (e, l) ↦ Call-IsSound (Call.completes id e q' l (ground arith) h) s
    ]
  ]

  exec-IsSound : (c : Command) → is_allowed c (view q) ≡ true → IsSound (exec c q).0
  unfolding exec
  exec-IsSound (offers id) a = Call-IsSound (Call.offers id) s
  exec-IsSound takes_next a = took-IsSound (JobQueue.take q) refl
  exec-IsSound (completes id) a = completed-IsSound id a (JobQueue.complete id q) refl
  exec-IsSound closes a = Call-IsSound Call.closes s

view-run :
    (cs : List Command) (q : JobQueue)
    → IsSound q
    → are_allowed cs (view q) ≡ true
    → (view (run cs q).0, (run cs q).1) ≡ run_fifo cs (view q)
unfolding run run_fifo are_allowed
view-run [] q s a = refl
view-run (c ∷ cs) q s a =
    let e = view-exec q s c (ground arith) in
    let k : are_allowed cs (view (exec c q).0) ≡ true = ground (arith, e) in
    let ih = view-run cs (exec c q).0 (exec-IsSound q s c (ground arith)) k in ground (arith, e, ih)

view-new : (capacity : ℕ) → view (new_job_queue capacity) ≡ new_fifo capacity
unfolding new_job_queue new_fifo queued slots lookup
view-new capacity = Fifo-ext _ _ (length-make capacity) refl (λ j. refl) refl refl

-- For every history of calls on a new queue of positive capacity in which workers complete only the
-- IDs that they have taken, the ring buffer and its map give the same answers, in the same order,
-- as the plain queue of JobQueue/Fifo, and at the end hold the same waiting IDs, the same IDs in
-- processing with the same marks, the same number of Jobs and the same closed flag.
pub run-run_fifo :
    (capacity : ℕ) (cs : List Command)
    → 0 < capacity
    → are_allowed cs (new_fifo capacity) ≡ true
    → (view (run cs (new_job_queue capacity)).0, (run cs (new_job_queue capacity)).1)
      ≡ run_fifo cs (new_fifo capacity)
run-run_fifo capacity cs h a =
    let v = view-new capacity in
    view-run cs (new_job_queue capacity) (new_job_queue-IsSound capacity h) (rw v a)
    ∙ ap (run_fifo cs) v
