-- ===== src/JobQueue/Hints.antt =====
-- queue.go: what becomes of a hint: merged, queued, kept while its ID is processed, or refused.
use dogx.Common.{
  ℕ, ◌+◌, ◌%◌, ◌<◌, ◌≡◌, refl, ◌∙◌, ap, subst, ◌==◌, ==_refl, Bool, true, false, none, some, [],
  ◌∷◌, ◌++◌, length, arith, inl, inr, ◌≢◌, ◌⊎◌, ◌↔◌,
}
use dogx.Common.Assoc.{lookup, assign, lookup-assign, tally-le-length}
use dogx.JobQueue.Ring.{length-set}
use dogx.JobQueue.Sound.{IsSound, queued-push, push-jobs, is_waiting}
use dogx.JobQueue.Offers.{
  marked, fresh, added, requeued, Offered, refused_closed, refused_full, merged, noted, accepted,
  offer-Offered, requeued-IsSound, marked-IsSound,
}
use dogx.JobQueue.Takes.{
  queued-taken, taken_waiting, TakeOf, of_closed, of_empty, of_oldest, take-TakeOf,
}
use dogx.JobQueue.Calls.{complete_again, Reach, Reach-IsSound}
use dogx.JobQueue.{PendingJob, JobQueue, push, offer, Taken, panics, takes, take, complete, queued}

-- In every queue that calls of a queue of positive capacity reach, `take` does not meet a nil entry
-- and so does not panic.
pub take_safe : {capacity : ℕ} (q : JobQueue) → 0 < capacity → Reach capacity q → take q ≢ panics
take_safe q h r e = go (take q) e (take-TakeOf q (Reach-IsSound h r))
  where
    go : (t : Taken) → t ≡ panics → TakeOf q t → ⊥
    go _ p (of_closed c) = cc
    go _ p (of_empty c z) = cc
    go _ p (of_oldest id x c n i l) = cc

-- The oldest ID leaves the buffer, and its entry, which was waiting, is processed.
abbrev pub HandsOver : JobQueue → ℕ → JobQueue → Type 0
HandsOver q id q' =
    (queued q ≡ id ∷ queued q')
    × ((e : PendingJob) × (lookup id q.jobs ≡ some e)
        × (e.processing ≡ false)
        × (lookup id q'.jobs ≡ some (record e { processing = true })))

TakeOf-HandsOver :
    (q : JobQueue) (id : ℕ) (q' : JobQueue) (t : Taken)
    → IsSound q
    → TakeOf q t
    → t ≡ takes id q'
    → HandsOver q id q'
TakeOf-HandsOver q id q' _ s (of_closed c) p = absurd (ground arith)
TakeOf-HandsOver q id q' _ s (of_empty c z) p = absurd (ground arith)
TakeOf-HandsOver q id q' _ s (of_oldest j e c n i l) p =
    subst (λ (k : ℕ). HandsOver q k q') (ground arith)
      (subst (HandsOver q j) (ground arith) (
        queued-taken q j e s.head_in n i,
        (
          e,
          l,
          (taken_waiting q s j e n i l).0,
          lookup-assign j j (record e { processing = true }) q.jobs l ∙ ground (arith, ==_refl j),
        ),
      ))

-- In every queue that calls of a queue of positive capacity reach, an ID that `take` hands out was
-- the oldest queued one and leaves the others in their order; its entry was waiting, so no other
-- worker has it, and is now being processed.
pub take_oldest :
    {capacity : ℕ} (q : JobQueue) (id : ℕ) (q' : JobQueue)
    → 0 < capacity
    → Reach capacity q
    → take q ≡ takes id q'
    → HandsOver q id q'
take_oldest q id q' h r e =
    TakeOf-HandsOver q id q' (take q) (Reach-IsSound h r) (take-TakeOf q (Reach-IsSound h r)) e

-- A closed queue, or a full one that has no entry for the ID.
abbrev pub Refuses : JobQueue → ℕ → Type 0
Refuses q id = (q.closed ≡ true) ⊎ ((lookup id q.jobs ≡ none) × (length q.jobs ≡ length q.buffer))

Offered-Refuses :
    (q : JobQueue) (id : ℕ) (r : JobQueue × Bool)
    → Offered q id r
    → ((r.1 ≡ false) ↔ Refuses q id) × (r.1 ≡ false → r.0 ≡ q)
Offered-Refuses q id _ (refused_closed c) = (((λ _. inl c), (λ _. refl)), (λ _. refl))
Offered-Refuses q id _ (refused_full c l f) = (((λ _. inr (l, f)), (λ _. refl)), (λ _. refl))
Offered-Refuses q id _ (merged e c l p) = (((λ x. cc), (λ x. ground arith)), (λ _. refl))
Offered-Refuses q id _ (noted e c l p) = (((λ x. cc), (λ x. ground arith)), (λ x. cc))
Offered-Refuses q id _ (accepted c l f) = (((λ x. cc), (λ x. ground arith)), (λ x. cc))

-- In any queue, `offer` answers false exactly when the queue is closed, or when it has as many
-- entries as its buffer has places and none for this ID; a refused hint changes nothing.
pub offer_refused :
    (q : JobQueue) (id : ℕ)
    → (((offer id q).1 ≡ false) ↔ Refuses q id) × ((offer id q).1 ≡ false → (offer id q).0 ≡ q)
offer_refused q id = Offered-Refuses q id (offer id q) (offer-Offered q id)

module _ {capacity : ℕ} (q : JobQueue) (id : ℕ) (h : 0 < capacity) (r : Reach capacity q)
    (c : q.closed ≡ false) where
  room : IsSound q → (length q.jobs == length q.buffer) ≡ false → q.size < length q.buffer
  room s f = ground (arith, s.bounded, s.sized, tally-le-length is_waiting q.jobs)

  offer-added :
      lookup id q.jobs ≡ none
      → (length q.jobs == length q.buffer) ≡ false
      → offer id q ≡ (added q id, true)
  unfolding offer
  offer-added l f = ground arith

  -- In every open queue that calls of a queue of positive capacity reach, a hint for an ID without an
  -- entry, where there are not as many entries as places, is accepted and queued behind all the others.
  pub offer_new :
      lookup id q.jobs ≡ none
      → (length q.jobs == length q.buffer) ≡ false
      → ((offer id q).1 ≡ true) × (queued (offer id q).0 ≡ queued q ++ id ∷ [])
  unfolding queued
  offer_new l f =
      let s = Reach-IsSound h r in
      rw (offer-added l f)
        (refl, queued-push (record q { jobs = (id, fresh) ∷ q.jobs }) id s.head_in (room s f))

module _ (q : JobQueue) (id : ℕ) (e : PendingJob) (s : IsSound q) (c : q.closed ≡ false)
    (l : lookup id q.jobs ≡ some e) (p : e.processing ≡ true) where
  offer-marked : offer id q ≡ (marked q id e, true)
  unfolding offer
  offer-marked = ground arith

  marked_entry : lookup id (marked q id e).jobs ≡ some (record e { dirty = true })
  marked_entry =
      lookup-assign id id (record e { dirty = true }) q.jobs l ∙ ground (arith, ==_refl id)

  again-IsSound : IsSound (requeued (marked q id e) id)
  again-IsSound =
      requeued-IsSound (marked q id e) (marked-IsSound q s id e l p) id (record e { dirty = true })
        marked_entry refl

  room_again : q.size < length q.buffer
  unfolding push
  room_again =
      let a = again-IsSound in
      omega (
        arith,
        a.sized,
        a.bounded,
        tally-le-length is_waiting (requeued (marked q id e) id).jobs,
        length-set q.buffer ((q.head + q.size) % length q.buffer) id,
      )

-- In every open queue that calls of a queue of positive capacity reach, a hint that comes while its ID
-- is processed is kept: the completion of the ID after the hint succeeds, queues the ID again behind
-- all the others, and leaves its entry waiting without a further hint.
pub hint_kept :
    {capacity : ℕ} (q : JobQueue) (id : ℕ) (e : PendingJob)
    → 0 < capacity
    → Reach capacity q
    → q.closed ≡ false
    → lookup id q.jobs ≡ some e
    → e.processing ≡ true
    → (q' : JobQueue) × (complete id (offer id q).0 ≡ some q')
      × (queued q' ≡ queued q ++ id ∷ [])
      × (lookup id q'.jobs ≡ some fresh)
unfolding queued
hint_kept q id e h r c l p =
    let s = Reach-IsSound h r in
    let m = marked q id e in
    let w = marked_entry q id e s c l p in
    (
      requeued m id,
      rw (offer-marked q id e s c l p) (complete_again m id (record e { dirty = true }) c w refl),
      queued-push (record m { jobs = assign id fresh m.jobs }) id s.head_in
          (room_again q id e s c l p),
      ap (lookup id) (push-jobs (record m { jobs = assign id fresh m.jobs }) id)
          ∙ lookup-assign id id fresh m.jobs w
          ∙ ground (arith, ==_refl id),
    )
