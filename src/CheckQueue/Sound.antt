-- ===== src/CheckQueue/Sound.antt =====
-- instancecheck/queue.go: hints keep the queue sound.
use dogx.Common.{
  ℕ, ◌<◌, ◌≡◌, refl, ◌∙◌, subst, ◌==◌, true, false, not, ◌||◌, none, some, [], ◌∷◌, length,
  count-append, arith, Bool-cases, Option-cases, inl, inr,
}
use dogx.Common.Assoc.{lookup, assign, lookup-assign, length-assign, Distinct-assign}
use dogx.Model.{Time}
use dogx.CheckQueue.{CheckEntry, CheckQueue, new_queue, merged, merge_entry, add_entry, hint}
use dogx.CheckQueue.Steps.{System, IsSound}

pub initial-IsSound :
    (capacity concurrency : ℕ)
    → IsSound capacity concurrency (record { queue = new_queue capacity; busy = []; left = 0 })
unfolding new_queue lookup
initial-IsSound capacity concurrency = record {
  same_capacity = refl;
  distinct = tt;
  bounded = omega arith;
  placed = λ id. refl;
  held = λ id. refl;
  settled = λ id e h. cc;
  workers = omega arith;
  drain_stops = λ h. cc;
  no_error = λ h. refl;
  cancelled_stops = λ h. cc;
  left_stops = λ h. absurd (omega arith);
}

module _ (capacity concurrency : ℕ) (s : System) (i : IsSound capacity concurrency s) where
  abbrev With : CheckQueue → Type 0
  With q = IsSound capacity concurrency (record s { queue = q })

  -- A change that leaves the IDs alone, and may only stop the queue further.
  pub same_ids :
      (q : CheckQueue)
      → q.capacity ≡ s.queue.capacity
      → q.entries ≡ s.queue.entries
      → q.pending ≡ s.queue.pending
      → (s.queue.cancelled ≡ true → q.cancelled ≡ true)
      → (s.queue.stopping ≡ true → q.stopping ≡ true)
      → (q.cancelled ≡ true → q.stopping ≡ true)
      → (q.draining ≡ true → q.stopping ≡ true)
      → (q.cancelled ≡ false → q.drain_error ≡ none)
      → With q
  same_ids q c e p k t h d n = record {
    same_capacity = c ∙ i.same_capacity;
    distinct = rw e i.distinct;
    bounded = rw e i.bounded;
    placed = λ id. rw (e, p) (i.placed id);
    held = λ id. rw e (i.held id);
    settled = λ id. rw e (i.settled id);
    workers = i.workers;
    drain_stops = d;
    no_error = n;
    cancelled_stops = h;
    left_stops = λ l. rw e (ground (arith, i.left_stops l));
  }

  pub added-IsSound :
      (now : Time) (id : ℕ)
      → s.queue.stopping ≡ false
      → lookup id s.queue.entries ≡ none
      → length s.queue.entries < capacity
      → With (add_entry now id s.queue)
  unfolding add_entry lookup
  added-IsSound now id t e l = record {
    same_capacity = i.same_capacity;
    distinct = (e, i.distinct);
    bounded = omega (arith, l);
    placed = λ j. ground (arith, i.placed j, count-append j s.queue.pending (id ∷ []));
    held = λ j. ground (arith, i.held j);
    settled = λ j f a b. ground (arith, i.settled j f);
    workers = i.workers;
    drain_stops = i.drain_stops;
    no_error = i.no_error;
    cancelled_stops = i.cancelled_stops;
    left_stops = λ l'. ground (arith, i.left_stops l', i.cancelled_stops);
  }

  -- A hint that finds its entry.
  pub merged-IsSound :
      (now : Time) (id : ℕ) (e : CheckEntry)
      → lookup id s.queue.entries ≡ some e
      → With (record s.queue { entries = assign id (merged now e) s.queue.entries })
  unfolding merged
  merged-IsSound now id e h =
      let m = merged now e in
      record {
        same_capacity = i.same_capacity;
        distinct = Distinct-assign id m s.queue.entries h i.distinct;
        bounded = omega (arith, i.bounded, length-assign id m s.queue.entries);
        placed = λ j. ground (arith, i.placed j, lookup-assign id j m s.queue.entries h);
        held = λ j. ground (arith, i.held j, lookup-assign id j m s.queue.entries h);
        settled = λ j f a b.
            ground (arith, i.settled j f, i.settled id e, lookup-assign id j m s.queue.entries h);
        workers = i.workers;
        drain_stops = i.drain_stops;
        no_error = i.no_error;
        cancelled_stops = i.cancelled_stops;
        left_stops = λ l. ground (arith, i.left_stops l, length-assign id m s.queue.entries);
      }

  pub hint-IsSound : (now : Time) (id : ℕ) → With (hint now id s.queue).0
  unfolding hint merge_entry
  hint-IsSound now id = elim (Bool-cases (id == 0 || not s.queue.started || s.queue.stopping)) [
    | inl e ↦ subst With (ground arith) i
    | inr e ↦ elim (Option-cases (lookup id s.queue.entries)) [
      | inr (f, m) ↦ subst With (ground arith) (merged-IsSound now id f m)
      | inl m ↦ elim (Bool-cases (length s.queue.entries == s.queue.capacity)) [
        | inl f ↦ subst With (ground arith) (
            same_ids (record s.queue { full_logged = true }) refl refl refl (λ h. h) (λ h. h)
              i.cancelled_stops i.drain_stops i.no_error)
        | inr f ↦
            subst With (ground arith)
              (added-IsSound now id (ground arith) m (ground (arith, i.bounded, i.same_capacity)))
      ]
    ]
  ]
