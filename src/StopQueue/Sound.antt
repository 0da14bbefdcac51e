-- ===== src/StopQueue/Sound.antt =====
-- instancestop/queue.go: every step keeps the queue sound.
use dogx.Common.{
  ℕ, ◌+◌, ◌<◌, ◌≡◌, refl, ◌∙◌, ap, subst, ◌==◌, Bool, true, false, not, ◌&&◌, ◌||◌, none, some,
  List, [], ◌∷◌, ◌++◌, length, count, remove, count-append, count-remove, length-remove, arith,
  Bool-cases, inl, inr, if◌then◌else◌,
}
use dogx.Database.{elem}
use dogx.StopQueue.{
  StopQueue, start, hint, stop, drain, expire, cancel_run, Taken, exits, takes, take, complete,
  finish,
}
use dogx.StopQueue.Steps.{
  System, IsSound, TakeOf, of_end, of_none, of_first, take-TakeOf, count-zero_of_elem,
  count-le-length,
}

module _ (capacity concurrency : ℕ) (s : System) (i : IsSound capacity concurrency s) where
  -- A change that leaves the IDs alone, and may only stop the queue further.
  same_ids :
      (q : StopQueue)
      → q.capacity ≡ s.queue.capacity
      → q.entries ≡ s.queue.entries
      → q.pending ≡ s.queue.pending
      → (s.queue.cancelled ≡ true → q.cancelled ≡ true)
      → (s.queue.stopping ≡ true → q.stopping ≡ true)
      → (q.cancelled ≡ true → q.stopping ≡ true)
      → (q.draining ≡ true → q.stopping ≡ true)
      → (q.cancelled ≡ false → q.drain_error ≡ none)
      → IsSound capacity concurrency (record s { queue = q })
  same_ids q c e p k t h d n = record {
    same_capacity = c ∙ i.same_capacity;
    bounded = rw e i.bounded;
    once = λ id. rw e (i.once id);
    held = λ id. rw (e, p) (i.held id);
    workers = i.workers;
    drain_stops = d;
    no_error = n;
    cancelled_stops = h;
    left_stops = λ l. rw e (ground (arith, i.left_stops l));
  }

  hinted-IsSound :
      (id : ℕ)
      → s.queue.stopping ≡ false
      → elem id s.queue.entries ≡ false
      → length s.queue.entries < capacity
      → IsSound capacity concurrency (record s {
        queue = record s.queue {
          entries = id ∷ s.queue.entries;
          pending = s.queue.pending ++ id ∷ [];
        };
      })
  hinted-IsSound id t e l = record {
    same_capacity = i.same_capacity;
    bounded = omega (arith, l);
    once = λ j. ground (arith, i.once j, count-zero_of_elem id s.queue.entries e);
    held = λ j. ground (arith, i.held j, count-append j s.queue.pending (id ∷ []));
    workers = i.workers;
    drain_stops = i.drain_stops;
    no_error = i.no_error;
    cancelled_stops = i.cancelled_stops;
    left_stops = λ l'. ground (arith, i.left_stops l', i.cancelled_stops);
  }

  pub hint-IsSound :
      (id : ℕ) → IsSound capacity concurrency (record s { queue = (hint id s.queue).0 })
  unfolding hint
  hint-IsSound id = elim (Bool-cases (id == 0 || not s.queue.started || s.queue.stopping)) [
    | inl e ↦ subst (λ q. IsSound capacity concurrency (record s { queue = q })) (ground arith) i
    | inr e ↦ elim (Bool-cases (elem id s.queue.entries)) [
      | inl m ↦ subst (λ q. IsSound capacity concurrency (record s { queue = q })) (ground arith) i
      | inr m ↦ elim (Bool-cases (length s.queue.entries == s.queue.capacity)) [
        | inl f ↦
            subst (λ q. IsSound capacity concurrency (record s { queue = q })) (ground arith)
              (same_ids (record s.queue { full_logged = true }) refl refl refl (λ h. h) (λ h. h)
                i.cancelled_stops i.drain_stops i.no_error)
        | inr f ↦
            subst (λ q. IsSound capacity concurrency (record s { queue = q })) (ground arith)
              (hinted-IsSound id (ground arith) m (ground (arith, i.bounded, i.same_capacity)))
      ]
    ]
  ]

  pub start-IsSound :
      (q : StopQueue)
      → start s.queue ≡ some q
      → IsSound capacity concurrency (record s { queue = q })
  unfolding start
  start-IsSound q h =
      subst (λ q. IsSound capacity concurrency (record s { queue = q }))
        (let e : (if s.queue.started || s.queue.stopping
                then none
                else some (record s.queue { started = true }))
              ≡ some q =
            h in
          ground arith)
        (same_ids (record s.queue { started = true }) refl refl refl (λ h. h) (λ h. h)
          i.cancelled_stops i.drain_stops i.no_error)

  pub stop-IsSound : IsSound capacity concurrency (record s { queue = stop s.queue })
  unfolding stop
  stop-IsSound =
      same_ids (stop s.queue) (ground arith) (ground arith) (ground arith) (ground arith)
        (ground arith) (ground (arith, i.cancelled_stops)) (ground (arith, i.drain_stops))
        (ground (arith, i.no_error))

  pub expire-IsSound : IsSound capacity concurrency (record s { queue = expire s.queue })
  unfolding expire
  expire-IsSound =
      same_ids (expire s.queue) (ground arith) (ground arith) (ground arith) (ground arith)
        (ground arith) (ground (arith, i.drain_stops, i.cancelled_stops))
        (ground (arith, i.drain_stops)) (ground (arith, i.no_error))

  pub cancel_run-IsSound : IsSound capacity concurrency (record s { queue = cancel_run s.queue })
  unfolding cancel_run
  cancel_run-IsSound =
      same_ids (cancel_run s.queue) (ground arith) (ground arith) (ground arith) (ground arith)
        (ground arith) (ground (arith, i.drain_stops, i.cancelled_stops))
        (ground (arith, i.drain_stops)) (ground (arith, i.no_error))

  pub drain-IsSound :
      (ended : Bool) → IsSound capacity concurrency (record s { queue = drain ended s.queue })
  unfolding drain stop
  drain-IsSound ended =
      same_ids (drain ended s.queue) (ground arith) (ground arith) (ground arith) (ground arith)
        (ground arith) (ground (arith, i.cancelled_stops)) (ground (arith, i.drain_stops))
        (ground (arith, i.no_error))

  taken-IsSound :
      (id : ℕ) (rest : List ℕ)
      → length s.busy + s.left < concurrency
      → s.queue.pending ≡ id ∷ rest
      → IsSound capacity concurrency
          (record s { queue = record s.queue { pending = rest }; busy = id ∷ s.busy })
  taken-IsSound id rest l p = record {
    same_capacity = i.same_capacity;
    bounded = i.bounded;
    once = i.once;
    held = λ j. omega (arith, i.held j, ap (count j) p);
    workers = omega (arith, l);
    drain_stops = i.drain_stops;
    no_error = i.no_error;
    cancelled_stops = i.cancelled_stops;
    left_stops = i.left_stops;
  }

  TakeOf-IsSound :
      (id : ℕ) (q : StopQueue) (t : Taken)
      → length s.busy + s.left < concurrency
      → TakeOf s.queue t
      → t ≡ takes id q
      → IsSound capacity concurrency (record s { queue = q; busy = id ∷ s.busy })
  TakeOf-IsSound id q _ l (of_end e) h = cc
  TakeOf-IsSound id q _ l (of_none c p) h = cc
  TakeOf-IsSound id q _ l (of_first j rest c p) h =
      subst (λ (k : ℕ). IsSound capacity concurrency (record s { queue = q; busy = k ∷ s.busy }))
        (ground arith)
        (subst
          (λ (r : StopQueue).
            IsSound capacity concurrency (record s { queue = r; busy = j ∷ s.busy }))
          (ground arith) (taken-IsSound j rest l p))

  pub take-IsSound :
      (id : ℕ) (q : StopQueue)
      → length s.busy + s.left < concurrency
      → take s.queue ≡ takes id q
      → IsSound capacity concurrency (record s { queue = q; busy = id ∷ s.busy })
  take-IsSound id q l h = TakeOf-IsSound id q (take s.queue) l (take-TakeOf s.queue) h

  pub leave-IsSound :
      length s.busy + s.left < concurrency
      → take s.queue ≡ exits
      → IsSound capacity concurrency (record s { left = s.left + 1 })
  unfolding take
  leave-IsSound l h = record {
    same_capacity = i.same_capacity;
    bounded = i.bounded;
    once = i.once;
    held = i.held;
    workers = omega (arith, l);
    drain_stops = i.drain_stops;
    no_error = i.no_error;
    cancelled_stops = i.cancelled_stops;
    left_stops = λ _. ground arith;
  }

  rotated-IsSound :
      (id : ℕ)
      → 0 < count id s.busy
      → IsSound capacity concurrency (record s {
        queue = record s.queue { pending = s.queue.pending ++ id ∷ [] };
        busy = remove id s.busy;
      })
  rotated-IsSound id h = record {
    same_capacity = i.same_capacity;
    bounded = i.bounded;
    once = i.once;
    held = λ j. ground (
      arith,
      i.held j,
      i.held id,
      i.once id,
      count-append j s.queue.pending (id ∷ []),
      count-remove id j s.busy,
    );
    workers = omega (arith, i.workers, length-remove id s.busy);
    drain_stops = i.drain_stops;
    no_error = i.no_error;
    cancelled_stops = i.cancelled_stops;
    left_stops = i.left_stops;
  }

  released-IsSound :
      (id : ℕ)
      → 0 < count id s.busy
      → IsSound capacity concurrency (record s {
        queue = record s.queue { entries = remove id s.queue.entries; full_logged = false };
        busy = remove id s.busy;
      })
  released-IsSound id h = record {
    same_capacity = i.same_capacity;
    bounded = omega (arith, i.bounded, length-remove id s.queue.entries);
    once = λ j. ground (arith, i.once j, count-remove id j s.queue.entries);
    held = λ j. ground (
      arith,
      i.held j,
      i.held id,
      i.once id,
      count-remove id j s.queue.entries,
      count-remove id j s.busy,
    );
    workers = omega (arith, i.workers, length-remove id s.busy);
    drain_stops = i.drain_stops;
    no_error = i.no_error;
    cancelled_stops = i.cancelled_stops;
    left_stops = λ l. ground (arith, i.left_stops l, length-remove id s.queue.entries);
  }

  pub complete-IsSound :
      (id : ℕ) (more : Bool)
      → 0 < count id s.busy
      → IsSound capacity concurrency
          (record s { queue = complete id more s.queue; busy = remove id s.busy })
  unfolding complete
  complete-IsSound id more h = elim (Bool-cases (more && not s.queue.cancelled)) [
    | inl e ↦
        subst (λ q. IsSound capacity concurrency (record s { queue = q; busy = remove id s.busy }))
          (ground arith) (rotated-IsSound id h)
    | inr e ↦
        subst (λ q. IsSound capacity concurrency (record s { queue = q; busy = remove id s.busy }))
          (ground arith) (released-IsSound id h)
  ]

  pub finish-IsSound :
      s.left ≡ concurrency
      → 0 < concurrency
      → IsSound capacity concurrency (record s { queue = finish s.queue })
  unfolding finish
  finish-IsSound l p = record {
    same_capacity = i.same_capacity;
    bounded = omega arith;
    once = λ id. omega arith;
    held = λ id. omega (arith, i.workers, count-le-length id s.busy);
    workers = i.workers;
    drain_stops = i.drain_stops;
    no_error = λ h. cc;
    cancelled_stops = λ _. ground (arith, i.left_stops, i.cancelled_stops);
    left_stops = λ _. inl refl;
  }
