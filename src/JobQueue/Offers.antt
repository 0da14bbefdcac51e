-- ===== src/JobQueue/Offers.antt =====
-- queue.go: `offer` and the entries that it and `complete` write.
use dogx.Common.{
  ℕ, ◌<◌, ◌≡◌, sym, ◌∙◌, subst, ◌==◌, Bool, true, false, none, some, ◌∷◌, length, arith, Bool-cases,
  Option-cases, inl, inr,
}
use dogx.Common.Assoc.{
  lookup, assign, erase, tally, lookup-assign, lookup-erase, lookup-erase_ne, length-assign,
  length-erase, Distinct-assign, Distinct-erase, tally-assign, tally-erase,
}
use dogx.JobQueue.{PendingJob, JobQueue, push, offer, queued}
use dogx.JobQueue.Sound.{is_waiting, IsSound, push-IsSound}

-- A hint for an ID that is being processed.
abbrev pub marked : JobQueue → ℕ → PendingJob → JobQueue
marked q id e = record q { jobs = assign id (record e { dirty = true }) q.jobs }

abbrev pub fresh : PendingJob
fresh = record { processing = false; dirty = false }

abbrev pub added : JobQueue → ℕ → JobQueue
added q id = push id (record q { jobs = (id, fresh) ∷ q.jobs })

abbrev pub requeued : JobQueue → ℕ → JobQueue
requeued q id = push id (record q { jobs = assign id fresh q.jobs })

-- What `offer` does, case by case.
pub data Offered (q : JobQueue) (id : ℕ) : JobQueue × Bool → Type 0 where
  refused_closed : q.closed ≡ true → Offered q id (q, false)
  refused_full :
      q.closed ≡ false
      → lookup id q.jobs ≡ none
      → length q.jobs ≡ length q.buffer
      → Offered q id (q, false)
  merged :
      (e : PendingJob)
      → q.closed ≡ false
      → lookup id q.jobs ≡ some e
      → e.processing ≡ false
      → Offered q id (q, true)
  noted :
      (e : PendingJob)
      → q.closed ≡ false
      → lookup id q.jobs ≡ some e
      → e.processing ≡ true
      → Offered q id (marked q id e, true)
  accepted :
      q.closed ≡ false
      → lookup id q.jobs ≡ none
      → (length q.jobs == length q.buffer) ≡ false
      → Offered q id (added q id, true)

module _ (q : JobQueue) (id : ℕ) where
  pub offer-Offered : Offered q id (offer id q)
  unfolding offer
  offer-Offered = elim (Bool-cases q.closed) [
    | inl c ↦ subst (Offered q id) (ground arith) (refused_closed c)
    | inr c ↦ elim (Option-cases (lookup id q.jobs)) [
      | inl l ↦ elim (Bool-cases (length q.jobs == length q.buffer)) [
        | inl f ↦ subst (Offered q id) (ground arith) (refused_full c l (ground arith))
        | inr f ↦ subst (Offered q id) (ground arith) (accepted c l f)
      ]
      | inr (e, l) ↦ elim (Bool-cases e.processing) [
        | inl p ↦ subst (Offered q id) (ground arith) (noted e c l p)
        | inr p ↦ subst (Offered q id) (ground arith) (merged e c l p)
      ]
    ]
  ]

module _ (q : JobQueue) (s : IsSound q) (id : ℕ) where
  pub marked-IsSound :
      (e : PendingJob) → lookup id q.jobs ≡ some e → e.processing ≡ true → IsSound (marked q id e)
  unfolding queued
  marked-IsSound e l p = record {
    distinct = Distinct-assign id _ q.jobs l s.distinct;
    bounded = omega (arith, s.bounded, length-assign id (record e { dirty = true }) q.jobs);
    head_in = s.head_in;
    sized =
        ground (arith, s.sized, tally-assign is_waiting id (record e { dirty = true }) q.jobs l);
    placed =
        λ j. ground (arith, s.placed j, lookup-assign id j (record e { dirty = true }) q.jobs l);
    dirty_taken = λ j r a d.
        ground (arith, s.dirty_taken j r, lookup-assign id j (record e { dirty = true }) q.jobs l);
  }

  -- A hint for a new ID, with room.
  pub added-IsSound :
      lookup id q.jobs ≡ none → length q.jobs < length q.buffer → IsSound (added q id)
  unfolding queued lookup tally
  added-IsSound l room =
      push-IsSound (record q { jobs = (id, fresh) ∷ q.jobs }) id
        (record {
          distinct = (l, s.distinct);
          bounded = omega arith;
          head_in = s.head_in;
          sized = omega (arith, s.sized);
          placed = λ j. ground (arith, s.placed j);
          dirty_taken = λ j r a d. ground (arith, s.dirty_taken j r);
        })

  -- A hint that came while its ID was processed: the ID is queued again.
  pub requeued-IsSound :
      (e : PendingJob) → lookup id q.jobs ≡ some e → e.dirty ≡ true → IsSound (requeued q id)
  unfolding queued
  requeued-IsSound e l d =
      push-IsSound (record q { jobs = assign id fresh q.jobs }) id
        (record {
          distinct = Distinct-assign id fresh q.jobs l s.distinct;
          bounded = omega (arith, s.bounded, length-assign id fresh q.jobs);
          head_in = s.head_in;
          sized =
              ground
                (arith, s.sized, s.dirty_taken id e l d, tally-assign is_waiting id fresh q.jobs l);
          placed = λ j.
              ground (arith, s.placed j, s.dirty_taken id e l d, lookup-assign id j fresh q.jobs l);
          dirty_taken =
              λ j r a x. ground (arith, s.dirty_taken j r, lookup-assign id j fresh q.jobs l);
        })

  pub erased-IsSound :
      (e : PendingJob)
      → lookup id q.jobs ≡ some e
      → e.processing ≡ true
      → IsSound (record q { jobs = erase id q.jobs })
  unfolding queued
  erased-IsSound e l p = record {
    distinct = Distinct-erase id q.jobs s.distinct;
    bounded = omega (arith, s.bounded, length-erase id q.jobs l);
    head_in = s.head_in;
    sized = ground (arith, s.sized, tally-erase is_waiting id q.jobs l);
    placed = λ j. elim (Bool-cases (id == j)) [
      | inl x ↦ ground (arith, s.placed j, lookup-erase id q.jobs s.distinct)
      | inr x ↦ ground (arith, s.placed j, lookup-erase_ne id j q.jobs x)
    ];
    dirty_taken = λ j r a x. elim (Bool-cases (id == j)) [
      | inl y ↦ ground (arith, lookup-erase id q.jobs s.distinct)
      | inr y ↦ s.dirty_taken j r (sym (lookup-erase_ne id j q.jobs y) ∙ a) x
    ];
  }
