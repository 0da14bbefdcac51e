-- ===== src/CheckQueue/Worked.antt =====
-- instancecheck/queue.go: the recovery's hints, the end of the queue and the workers keep it sound.
use dogx.Common.{
  ℕ, ◌+◌, ◌<◌, ◌≡◌, refl, ◌∙◌, ap, subst, ◌==◌, Bool, true, false, not, ◌||◌, none, some, List, ◌∷◌,
  ◌++◌, length, count, count-append, arith, Bool-cases, Option-cases, inl, inr, if◌then◌else◌,
  ==_refl, ltb,
}
use dogx.Common.Assoc.{lookup, assign, lookup-assign, length-assign, Distinct-assign}
use dogx.Model.{Time}
use dogx.CheckQueue.{
  CheckEntry, CheckQueue, start, merge_entry, admitted, half, admit_new, wait_recovery, stop, drain,
  expire, cancel_run,
}
use dogx.CheckQueue.Steps.{System, IsSound}
use dogx.CheckQueue.Sound.{same_ids, added-IsSound, merged-IsSound}

module _ (capacity concurrency : ℕ) (s : System) (i : IsSound capacity concurrency s) where
  abbrev With : CheckQueue → Type 0
  With q = IsSound capacity concurrency (record s { queue = q })

  -- One round of the recovery's wait, where it admits.
  pub recover-IsSound :
      (ended : Bool) (now : Time) (id : ℕ) (q : CheckQueue)
      → 0 < capacity
      → wait_recovery ended now id s.queue ≡ admitted q
      → With q
  unfolding wait_recovery admit_new merge_entry
  recover-IsSound ended now id q p h =
      elim (Bool-cases (ended || not s.queue.started || s.queue.stopping || s.queue.cancelled)) [
        | inl e ↦ absurd (ground arith)
        | inr e ↦ elim (Bool-cases (id == 0)) [
          | inl z ↦ elim (Bool-cases (ltb (length s.queue.entries) (half s.queue.capacity))) [
            | inl l ↦ subst With (ground arith) i
            | inr l ↦ absurd (ground arith)
          ]
          | inr z ↦ elim (Option-cases (lookup id s.queue.entries)) [
            | inr (f, m) ↦
                subst With (ground arith) (merged-IsSound capacity concurrency s i now id f m)
            | inl m ↦ elim (Bool-cases (ltb (length s.queue.entries) (half s.queue.capacity))) [
              | inl l ↦ subst With (ground arith) (
                  added-IsSound capacity concurrency s i now id (ground arith) m
                    (ground (arith, i.same_capacity)))
              | inr l ↦ absurd (ground arith)
            ]
          ]
        ]
      ]

  pub start-IsSound : (q : CheckQueue) → start s.queue ≡ some q → With q
  unfolding start
  start-IsSound q h =
      subst With
        (let e : (if s.queue.started || s.queue.stopping
                then none
                else some (record s.queue { started = true }))
              ≡ some q =
            h in
          ground arith)
        (same_ids capacity concurrency s i (record s.queue { started = true }) refl refl refl
          (λ h. h) (λ h. h) i.cancelled_stops i.drain_stops i.no_error)

  pub stop-IsSound : With (stop s.queue)
  unfolding stop
  stop-IsSound =
      same_ids capacity concurrency s i (stop s.queue) (ground arith) (ground arith) (ground arith)
        (ground arith) (ground arith) (ground (arith, i.cancelled_stops))
        (ground (arith, i.drain_stops)) (ground (arith, i.no_error))

  pub expire-IsSound : With (expire s.queue)
  unfolding expire
  expire-IsSound =
      same_ids capacity concurrency s i (expire s.queue) (ground arith) (ground arith)
        (ground arith) (ground arith) (ground arith)
        (ground (arith, i.drain_stops, i.cancelled_stops)) (ground (arith, i.drain_stops))
        (ground (arith, i.no_error))

  pub cancel_run-IsSound : With (cancel_run s.queue)
  unfolding cancel_run
  cancel_run-IsSound =
      same_ids capacity concurrency s i (cancel_run s.queue) (ground arith) (ground arith)
        (ground arith) (ground arith) (ground arith)
        (ground (arith, i.drain_stops, i.cancelled_stops)) (ground (arith, i.drain_stops))
        (ground (arith, i.no_error))

  pub drain-IsSound : (ended : Bool) → With (drain ended s.queue)
  unfolding drain stop
  drain-IsSound ended =
      same_ids capacity concurrency s i (drain ended s.queue) (ground arith) (ground arith)
        (ground arith) (ground arith) (ground arith) (ground (arith, i.cancelled_stops))
        (ground (arith, i.drain_stops)) (ground (arith, i.no_error))

  pub taken-IsSound :
      (earlier : List ℕ) (id : ℕ) (later : List ℕ) (e : CheckEntry)
      → length s.busy + s.left < concurrency
      → s.queue.pending ≡ earlier ++ id ∷ later
      → lookup id s.queue.entries ≡ some e
      → IsSound capacity concurrency (record {
        queue = record s.queue {
          pending = earlier ++ later;
          entries = assign id (record e { processing = true }) s.queue.entries;
        };
        busy = id ∷ s.busy;
        left = s.left;
      })
  taken-IsSound earlier id later e l p h =
      let m : CheckEntry = record e { processing = true } in
      let n = λ (j : ℕ). lookup-assign id j m s.queue.entries h in
      let c = λ (j : ℕ). ap (count j) p ∙ count-append j earlier (id ∷ later) in
      let w : e.processing ≡ false = ground (arith, i.placed id, c id, ==_refl id) in
      record {
        same_capacity = i.same_capacity;
        distinct = Distinct-assign id m s.queue.entries h i.distinct;
        bounded = omega (arith, i.bounded, length-assign id m s.queue.entries);
        placed = λ j. ground (arith, i.placed j, c j, count-append j earlier later, n j);
        held = λ j. ground (arith, i.held j, n j);
        settled = λ j f a b. ground (arith, i.settled j f, n j);
        workers = omega (arith, l);
        drain_stops = i.drain_stops;
        no_error = i.no_error;
        cancelled_stops = i.cancelled_stops;
        left_stops = λ l. ground (arith, i.left_stops l, length-assign id m s.queue.entries);
      }
