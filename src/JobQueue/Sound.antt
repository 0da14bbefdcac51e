-- ===== src/JobQueue/Sound.antt =====
-- What holds of the queue of queue.go between two calls.
use dogx.Common.{
  count, count-append, ℕ, ◌+◌, ◌%◌, ◌≤◌, ◌<◌, ◌≡◌, refl, ◌∙◌, ap, ◌==◌, if◌then◌else◌, Bool, true,
  not, Option, none, some, [], ◌∷◌, ◌++◌, length, arith,
}
use dogx.Common.Assoc.{lookup, Distinct, tally, tally-le-length}
use native.Mathlib.Numerals.{towards_suc}
use dogx.JobQueue.Ring.{slots, length-make, length-set, slots_push}
use dogx.JobQueue.{PendingJob, JobQueue, new_job_queue, push, close, queued}

abbrev pub is_waiting : PendingJob → Bool
is_waiting p = not p.processing

-- An entry that waits to be taken stands in the buffer once; any other ID does not stand there.
abbrev pub places : Option PendingJob → ℕ
places none = 0
places (some p) = if p.processing then 0 else 1

pub record IsSound (q : JobQueue) : Type 0 where
  pub distinct : Distinct q.jobs
  pub bounded : length q.jobs ≤ length q.buffer
  pub head_in : q.head < length q.buffer
  pub sized : q.size ≡ tally is_waiting q.jobs
  pub placed : (id : ℕ) → count id (queued q) ≡ places (lookup id q.jobs)
  pub dirty_taken :
      (id : ℕ) (p : PendingJob) → lookup id q.jobs ≡ some p → p.dirty ≡ true → p.processing ≡ true

pub new_job_queue-IsSound : (capacity : ℕ) → 0 < capacity → IsSound (new_job_queue capacity)
unfolding new_job_queue tally lookup queued slots
new_job_queue-IsSound capacity h = record {
  distinct = tt;
  bounded = omega (arith, length-make capacity);
  head_in = omega (arith, length-make capacity);
  sized = refl;
  placed = λ id. refl;
  dirty_taken = λ id p e. cc;
}

pub close_size : (q : JobQueue) → queued (close q) ≡ []
unfolding close queued slots
close_size q = refl

pub close-IsSound : (q : JobQueue) → IsSound q → IsSound (close q)
unfolding close tally lookup queued slots
close-IsSound q s = record {
  distinct = tt;
  bounded = omega arith;
  head_in = s.head_in;
  sized = refl;
  placed = λ id. refl;
  dirty_taken = λ id p e. cc;
}

-- Writing one more ID at the end.
pub queued-push :
    (q : JobQueue) (id : ℕ)
    → q.head < length q.buffer
    → q.size < length q.buffer
    → queued (push id q) ≡ queued q ++ id ∷ []
unfolding queued push
queued-push q id h l = simp towards_suc (slots_push q.buffer q.head q.size id h l)

-- A queue whose entry for `id` is about to be written into the buffer.
pub record Pushable (q : JobQueue) (id : ℕ) : Type 0 where
  pub distinct : Distinct q.jobs
  pub bounded : length q.jobs ≤ length q.buffer
  pub head_in : q.head < length q.buffer
  pub sized : q.size + 1 ≡ tally is_waiting q.jobs
  pub placed : (j : ℕ) → count j (queued q) + (if id == j then 1 else 0) ≡ places (lookup j q.jobs)
  pub dirty_taken :
      (j : ℕ) (p : PendingJob) → lookup j q.jobs ≡ some p → p.dirty ≡ true → p.processing ≡ true

pub push-jobs : (q : JobQueue) (id : ℕ) → (push id q).jobs ≡ q.jobs
unfolding push
push-jobs q id = refl

pub push-IsSound : (q : JobQueue) (id : ℕ) → Pushable q id → IsSound (push id q)
unfolding push
push-IsSound q id p = record {
  distinct = p.distinct;
  bounded = omega (arith, p.bounded, length-set q.buffer ((q.head + q.size) % length q.buffer) id);
  head_in = omega (arith, p.head_in, length-set q.buffer ((q.head + q.size) % length q.buffer) id);
  sized = p.sized;
  placed = λ j.
      ap (count j) (
        queued-push q id p.head_in
          (omega (arith, p.sized, p.bounded, tally-le-length is_waiting q.jobs)))
      ∙ count-append j (queued q) (id ∷ [])
      ∙ ground (arith, p.placed j);
  dirty_taken = p.dirty_taken;
}
