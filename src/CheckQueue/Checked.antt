-- ===== src/CheckQueue/Checked.antt =====
-- instancecheck/queue.go: taking an entry, and the ends of a check and of a worker, keep the queue sound.
use dogx.Common.{
  ℕ, ◌+◌, ◌<◌, ◌≡◌, refl, ◌∙◌, ap, subst, Bool, true, false, not, ◌&&◌, some, List, [], ◌∷◌, ◌++◌,
  length, count, remove, count-append, count-remove, length-remove, arith, Bool-cases, Option-cases,
  inl, inr, ==_refl,
}
use dogx.Common.Assoc.{
  lookup, assign, erase, lookup-assign, lookup-erase, lookup-erase_ne, length-assign, length-erase,
  Distinct-assign, Distinct-erase,
}
use dogx.Model.{Time, is_zero}
use dogx.CheckQueue.{CheckEntry, CheckQueue, Taken, exits, takes, take, complete, finish}
use dogx.CheckQueue.Steps.{System, IsSound}
use dogx.CheckQueue.Takes.{TakeOf, of_end, of_none, of_first, take_first_due}
use dogx.CheckQueue.Worked.{taken-IsSound}
use dogx.StopQueue.Steps.{count-le-length}

module _ (capacity concurrency : ℕ) (s : System) (i : IsSound capacity concurrency s) where
  entry_of_pending :
      (earlier : List ℕ) (id : ℕ) (later : List ℕ)
      → s.queue.pending ≡ earlier ++ id ∷ later
      → (e : CheckEntry) × (lookup id s.queue.entries ≡ some e)
  entry_of_pending earlier id later p = elim (Option-cases (lookup id s.queue.entries)) [
    | inr (e, h) ↦ (e, h)
    | inl h ↦ absurd (
        let c = ap (count id) p ∙ count-append id earlier (id ∷ later) in
        ground (arith, i.placed id, c, ==_refl id))
  ]

  TakeOf-IsSound :
      (now : Time) (id : ℕ) (q : CheckQueue) (t : Taken)
      → length s.busy + s.left < concurrency
      → TakeOf now s.queue t
      → t ≡ takes id q
      → IsSound capacity concurrency (record s { queue = q; busy = id ∷ s.busy })
  TakeOf-IsSound now id q _ l (of_end e) h = cc
  TakeOf-IsSound now id q _ l (of_none t c a w) h = cc
  TakeOf-IsSound now id q _ l (of_first earlier j later c p a d) h =
      let (e, f) = entry_of_pending earlier j later p in
      let sound = taken-IsSound capacity concurrency s i earlier j later e l p f in
      let same_id : j ≡ id = ground arith in
      let same_queue : record s.queue {
        pending = earlier ++ later;
        entries = assign j (record e { processing = true }) s.queue.entries;
      }
          ≡ q =
        ground arith in
      subst (λ (k : ℕ). IsSound capacity concurrency (record s { queue = q; busy = k ∷ s.busy }))
        same_id
        (subst
          (λ (r : CheckQueue).
            IsSound capacity concurrency (record s { queue = r; busy = j ∷ s.busy }))
          same_queue sound)

  pub take-IsSound :
      (now : Time) (id : ℕ) (q : CheckQueue)
      → length s.busy + s.left < concurrency
      → take now s.queue ≡ takes id q
      → IsSound capacity concurrency (record s { queue = q; busy = id ∷ s.busy })
  take-IsSound now id q l h =
      TakeOf-IsSound now id q (take now s.queue) l (take_first_due now s.queue) h

  leaves-IsSound :
      (now : Time) (t : Taken)
      → length s.busy + s.left < concurrency
      → TakeOf now s.queue t
      → t ≡ exits
      → IsSound capacity concurrency (record s { left = s.left + 1 })
  leaves-IsSound now _ l (of_none t c a w) h = cc
  leaves-IsSound now _ l (of_first earlier j later c p a d) h = cc
  leaves-IsSound now _ l (of_end e) h = record {
    same_capacity = i.same_capacity;
    distinct = i.distinct;
    bounded = i.bounded;
    placed = i.placed;
    held = i.held;
    settled = i.settled;
    workers = omega (arith, l);
    drain_stops = i.drain_stops;
    no_error = i.no_error;
    cancelled_stops = i.cancelled_stops;
    left_stops = λ _. e;
  }

  pub leave-IsSound :
      (now : Time)
      → length s.busy + s.left < concurrency
      → take now s.queue ≡ exits
      → IsSound capacity concurrency (record s { left = s.left + 1 })
  leave-IsSound now l h = leaves-IsSound now (take now s.queue) l (take_first_due now s.queue) h

  again-IsSound :
      (id : ℕ) (e : CheckEntry)
      → 0 < count id s.busy
      → lookup id s.queue.entries ≡ some e
      → IsSound capacity concurrency (record s {
        queue = record s.queue {
          entries =
              assign id
                (record { due = e.next_due; processing = false; next_due = 0 })
                s.queue.entries;
          pending = s.queue.pending ++ id ∷ [];
        };
        busy = remove id s.busy;
      })
  again-IsSound id e b h =
      let m : CheckEntry = record { due = e.next_due; processing = false; next_due = 0 } in
      let n = λ (j : ℕ). lookup-assign id j m s.queue.entries h in
      record {
        same_capacity = i.same_capacity;
        distinct = Distinct-assign id m s.queue.entries h i.distinct;
        bounded = omega (arith, i.bounded, length-assign id m s.queue.entries);
        placed = λ j. ground (
          arith,
          i.placed j,
          i.placed id,
          i.held id,
          count-append j s.queue.pending (id ∷ []),
          n j,
        );
        held = λ j. ground (arith, i.held j, count-remove id j s.busy, n j);
        settled = λ j f a c. ground (arith, i.settled j f, n j);
        workers = omega (arith, i.workers, length-remove id s.busy);
        drain_stops = i.drain_stops;
        no_error = i.no_error;
        cancelled_stops = i.cancelled_stops;
        left_stops = λ l. ground (arith, i.left_stops l, length-assign id m s.queue.entries);
      }

  released-IsSound :
      (id : ℕ) (e : CheckEntry)
      → 0 < count id s.busy
      → lookup id s.queue.entries ≡ some e
      → IsSound capacity concurrency (record s {
        queue = record s.queue { entries = erase id s.queue.entries; full_logged = false };
        busy = remove id s.busy;
      })
  released-IsSound id e b h =
      let gone = lookup-erase id s.queue.entries i.distinct in
      let n = λ (j : ℕ). lookup-erase_ne id j s.queue.entries in
      record {
        same_capacity = i.same_capacity;
        distinct = Distinct-erase id s.queue.entries i.distinct;
        bounded = omega (arith, i.bounded, length-erase id s.queue.entries h);
        placed = λ j. ground (arith, i.placed j, i.placed id, i.held id, gone, n j);
        held = λ j. ground (arith, i.held j, count-remove id j s.busy, gone, n j);
        settled = λ j f a c. ground (arith, i.settled j f, gone, n j);
        workers = omega (arith, i.workers, length-remove id s.busy);
        drain_stops = i.drain_stops;
        no_error = i.no_error;
        cancelled_stops = i.cancelled_stops;
        left_stops = λ l. ground (arith, i.left_stops l, length-erase id s.queue.entries h);
      }

  pub entry_of_busy :
      (id : ℕ)
      → 0 < count id s.busy
      → (e : CheckEntry) × (lookup id s.queue.entries ≡ some e) × (e.processing ≡ true)
  entry_of_busy id b = elim (Option-cases (lookup id s.queue.entries)) [
    | inl h ↦ absurd (ground (arith, i.held id))
    | inr (e, h) ↦ (e, h, ground (arith, i.held id))
  ]

  pub complete-IsSound :
      (id : ℕ) (terminal : Bool)
      → 0 < count id s.busy
      → IsSound capacity concurrency
          (record s { queue = complete id terminal s.queue; busy = remove id s.busy })
  unfolding complete
  complete-IsSound id terminal b =
      let (e, h, p) = entry_of_busy id b in
      elim (Bool-cases (not terminal && not (is_zero e.next_due) && not s.queue.cancelled)) [
        | inl c ↦
            subst
              (λ q. IsSound capacity concurrency (record s { queue = q; busy = remove id s.busy }))
              (ground arith) (again-IsSound id e b h)
        | inr c ↦
            subst
              (λ q. IsSound capacity concurrency (record s { queue = q; busy = remove id s.busy }))
              (ground arith) (released-IsSound id e b h)
      ]

  pub finish-IsSound :
      s.left ≡ concurrency
      → 0 < concurrency
      → IsSound capacity concurrency (record s { queue = finish s.queue })
  unfolding finish lookup
  finish-IsSound l p = record {
    same_capacity = i.same_capacity;
    distinct = tt;
    bounded = omega arith;
    placed = λ id. refl;
    held = λ id. omega (arith, i.workers, count-le-length id s.busy);
    settled = λ id e h. cc;
    workers = i.workers;
    drain_stops = i.drain_stops;
    no_error = λ h. cc;
    cancelled_stops = λ _. ground (arith, i.left_stops, i.cancelled_stops);
    left_stops = λ _. inl refl;
  }
