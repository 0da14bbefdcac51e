-- ===== src/JobQueue/Views.antt =====
-- queue.go: each change of the ring buffer and its map, seen as a change of the queue of JobQueue/Fifo.
use dogx.Common.{
  ℕ, ◌+◌, ◌-◌, ◌<◌, ◌≡◌, refl, ◌==◌, if◌then◌else◌, Bool, true, false, Option, none, some, List, [],
  ◌∷◌, ◌++◌, length, arith, count,
}
use dogx.Common.Assoc.{
  lookup, assign, erase, lookup-assign, lookup-erase, lookup-erase_ne, length-assign, length-erase,
  tally-le-length, tally-lt-length,
}
use dogx.Database.{elem}
use dogx.JobQueue.{PendingJob, JobQueue, push, queued}
use dogx.JobQueue.Ring.{at, length-set}
use dogx.JobQueue.Takes.{taken}
use dogx.JobQueue.Sound.{IsSound, is_waiting, queued-push}
use dogx.JobQueue.Offers.{
  marked, fresh, added, requeued, Offered, refused_closed, refused_full, merged, noted, accepted,
}
use dogx.JobQueue.Fifo
use dogx.JobQueue.Fifo.{Fifo, Fifo-ext, new_fifo, with_busy}

-- A processed ID's `dirty` mark.
abbrev pub mark : Option PendingJob → Option Bool
mark none = none
mark (some p) = if p.processing then some p.dirty else none

abbrev pub view : JobQueue → Fifo
view q = record {
  capacity = length q.buffer;
  waiting = queued q;
  busy = λ id. mark (lookup id q.jobs);
  load = length q.jobs;
  closed = q.closed;
}

elem_of_count : (id : ℕ) (xs : List ℕ) → elem id xs ≡ (if count id xs == 0 then false else true)
elem_of_count id [] = refl
elem_of_count id (x ∷ xs) = ground (arith, elem_of_count id xs)

module _ (q : JobQueue) (s : IsSound q) (id : ℕ) where
  view-marked :
      (e : PendingJob)
      → lookup id q.jobs ≡ some e
      → e.processing ≡ true
      → view (marked q id e) ≡ record (view q) { busy = with_busy id (some true) (view q).busy }
  unfolding queued
  view-marked e l p =
      Fifo-ext _ _ refl refl
        (λ j. ground (arith, lookup-assign id j (record e { dirty = true }) q.jobs l))
        (length-assign id (record e { dirty = true }) q.jobs) refl

  view-added :
      lookup id q.jobs ≡ none
      → (length q.jobs == length q.buffer) ≡ false
      → view (added q id)
        ≡ record (view q) { waiting = queued q ++ id ∷ []; load = length q.jobs + 1 }
  unfolding push lookup queued
  view-added l f =
      let q1 : JobQueue = record q { jobs = (id, fresh) ∷ q.jobs } in
      Fifo-ext _ _ (length-set q.buffer _ id)
        (queued-push q1 id s.head_in
          (ground (arith, s.bounded, s.sized, tally-le-length is_waiting q.jobs)))
        (λ j. ground arith) (omega arith) refl

  pub view-offer : (r : JobQueue × Bool) → Offered q id r → (view r.0, r.1) ≡ Fifo.offer id (view q)
  unfolding Fifo.offer
  view-offer _ (refused_closed c) = ground arith
  view-offer _ (refused_full c l f) = ground (arith, s.placed id, elem_of_count id (queued q))
  view-offer _ (merged e c l p) = ground (arith, s.placed id, elem_of_count id (queued q))
  view-offer _ (noted e c l p) = rw (view-marked e l p) (ground arith)
  view-offer _ (accepted c l f) =
      rw (view-added l f) (ground (arith, s.placed id, elem_of_count id (queued q)))

module _ (q : JobQueue) (s : IsSound q) (id : ℕ) (e : PendingJob)
    (l : lookup id q.jobs ≡ some e) where
  pub view-taken :
      (i : id ≡ at q.buffer q.head)
      → 0 < q.size
      → view (taken q id e) ≡ record (view q) {
        waiting = queued (taken q id e);
        busy = with_busy id (some e.dirty) (view q).busy;
      }
  view-taken i n =
      Fifo-ext _ _ refl refl
        (λ j. ground (arith, lookup-assign id j (record e { processing = true }) q.jobs l))
        (length-assign id (record e { processing = true }) q.jobs) refl

  pub view-requeued :
      e.processing ≡ true
      → view (requeued q id)
        ≡ record (view q) { waiting = queued q ++ id ∷ []; busy = with_busy id none (view q).busy }
  unfolding push queued
  view-requeued p =
      let q1 : JobQueue = record q { jobs = assign id fresh q.jobs } in
      Fifo-ext _ _ (length-set q.buffer _ id)
        (queued-push q1 id s.head_in
          (ground (arith, s.bounded, s.sized, tally-lt-length is_waiting id q.jobs l)))
        (λ j. ground (arith, lookup-assign id j fresh q.jobs l)) (length-assign id fresh q.jobs)
        refl

  pub view-erased :
      view (record q { jobs = erase id q.jobs })
      ≡ record (view q) { busy = with_busy id none (view q).busy; load = length q.jobs - 1 }
  unfolding queued
  view-erased =
      Fifo-ext _ _ refl refl
        (λ j. ground (arith, lookup-erase id q.jobs s.distinct, lookup-erase_ne id j q.jobs))
        (omega (arith, length-erase id q.jobs l)) refl
