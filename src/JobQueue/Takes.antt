-- ===== src/JobQueue/Takes.antt =====
-- queue.go: `take`.
use dogx.Common.{
  count, ℕ, suc, ◌+◌, ◌-◌, ◌%◌, ◌<◌, ◌≡◌, refl, sym, ◌∙◌, ap, subst, ◌==◌, ==_refl, if◌then◌else◌,
  true, false, some, List, ◌∷◌, length, arith, Bool-cases, Option-cases, inl, inr,
}
use dogx.Common.Assoc.{lookup, assign, lookup-assign, length-assign, Distinct-assign, tally-assign}
use native.Mathlib.Nat.{mod-eq_of_lt, mod-lt}
use dogx.JobQueue.Ring.{at, slots, slots_take}
use dogx.JobQueue.{PendingJob, JobQueue, Taken, waits, stopped, takes, take, queued}
use dogx.JobQueue.Offers.{fresh}
use dogx.JobQueue.Sound.{is_waiting, IsSound}

abbrev pub taken : JobQueue → ℕ → PendingJob → JobQueue
taken q id e = record q {
  head = (q.head + 1) % length q.buffer;
  size = q.size - 1;
  jobs = assign id (record e { processing = true }) q.jobs;
}

-- The oldest queued ID, and the queue without it.
pub queued-taken :
    (q : JobQueue) (id : ℕ) (e : PendingJob)
    → q.head < length q.buffer
    → 0 < q.size
    → id ≡ at q.buffer q.head
    → queued q ≡ id ∷ queued (taken q id e)
unfolding queued
queued-taken q id e h n i =
    let m : q.size ≡ suc (q.size - 1) = omega arith in
    ap (slots q.buffer q.head 0) m
    ∙ slots_take q.buffer q.head (q.size - 1)
    ∙ ap (λ x. x ∷ slots q.buffer ((q.head + 1) % length q.buffer) 0 (q.size - 1))
        (ap (at q.buffer) (mod-eq_of_lt h) ∙ sym i)

module _ (q : JobQueue) (s : IsSound q) (id : ℕ) (e : PendingJob) (n : 0 < q.size)
    (i : id ≡ at q.buffer q.head) (l : lookup id q.jobs ≡ some e) where
  abbrev rest : List ℕ
  rest = queued (taken q id e)

  count_taken : (j : ℕ) → count j (queued q) ≡ (if id == j then 1 else 0) + count j rest
  count_taken j = ap (count j) (queued-taken q id e s.head_in n i)

  -- An ID is taken from its waiting entry.
  pub taken_waiting : (e.processing ≡ false) × (count id rest ≡ 0)
  taken_waiting = ground (arith, s.placed id, count_taken id, ==_refl id)

  pub taken-IsSound : IsSound (taken q id e)
  taken-IsSound = record {
    distinct = Distinct-assign id (record e { processing = true }) q.jobs l s.distinct;
    bounded = omega (arith, s.bounded, length-assign id (record e { processing = true }) q.jobs);
    head_in = mod-lt (q.head + 1) (omega (arith, s.head_in));
    sized = ground (
      arith,
      s.sized,
      taken_waiting,
      tally-assign is_waiting id (record e { processing = true }) q.jobs l,
    );
    placed = λ j. ground (
      arith,
      s.placed j,
      taken_waiting,
      count_taken j,
      lookup-assign id j (record e { processing = true }) q.jobs l,
    );
    dirty_taken = λ j r a d.
        ground
          (arith, s.dirty_taken j r, lookup-assign id j (record e { processing = true }) q.jobs l);
  }

-- A take that answers has removed the oldest ID; in a sound queue it never meets a nil entry.
pub data TakeOf (q : JobQueue) : Taken → Type 0 where
  of_closed : q.closed ≡ true → TakeOf q stopped
  of_empty : q.closed ≡ false → q.size ≡ 0 → TakeOf q waits
  of_oldest :
      (id : ℕ) (e : PendingJob)
      → q.closed ≡ false
      → 0 < q.size
      → id ≡ at q.buffer q.head
      → lookup id q.jobs ≡ some e
      → TakeOf q (takes id (taken q id e))

oldest_entry :
    (q : JobQueue)
    → IsSound q
    → 0 < q.size
    → (e : PendingJob) × (lookup (at q.buffer q.head) q.jobs ≡ some e)
oldest_entry q s n = elim (Option-cases (lookup (at q.buffer q.head) q.jobs)) [
  | inr (e, l) ↦ (e, l)
  | inl l ↦ absurd (
      let id = at q.buffer q.head in
      ground
        (arith, s.placed id, ap (count id) (queued-taken q id fresh s.head_in n refl), ==_refl id))
]

pub take-TakeOf : (q : JobQueue) → IsSound q → TakeOf q (take q)
unfolding take
take-TakeOf q s = elim (Bool-cases q.closed) [
  | inl c ↦ subst (TakeOf q) (ground arith) (of_closed c)
  | inr c ↦ elim (Bool-cases (q.size == 0)) [
    | inl z ↦ subst (TakeOf q) (ground arith) (of_empty c (ground arith))
    | inr z ↦
        let n : 0 < q.size = ground arith in
        let (e, l) = oldest_entry q s n in
        subst (TakeOf q) (ground arith) (of_oldest (at q.buffer q.head) e c n refl l)
  ]
]
