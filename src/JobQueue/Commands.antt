-- ===== src/JobQueue/Commands.antt =====
-- queue.go: whole histories of calls, against the queue of JobQueue/Fifo.
use dogx.Common.{ℕ, if◌then◌else◌, Bool, true, false, Option, none, some, List, [], ◌∷◌}
use dogx.JobQueue
use dogx.JobQueue.{JobQueue, new_job_queue}
use dogx.JobQueue.Fifo
use dogx.JobQueue.Fifo.{Fifo, new_fifo}

pub data Command : Type 0 where
  offers completes : ℕ → Command
  takes_next closes : Command

-- What a call gives back; `panicked` is a Go panic.
pub data Answer : Type 0 where
  offered : Bool → Answer
  took : ℕ → Answer
  must_wait told_to_stop completed was_closed panicked : Answer

abbrev pub took_from : JobQueue → JobQueue.Taken → JobQueue × Answer
took_from q JobQueue.waits = (q, must_wait)
took_from q JobQueue.stopped = (q, told_to_stop)
took_from q JobQueue.panics = (q, panicked)
took_from q (JobQueue.takes id q') = (q', took id)

abbrev pub completed_to : JobQueue → Option JobQueue → JobQueue × Answer
completed_to q none = (q, panicked)
completed_to q (some q') = (q', completed)

unfoldable pub exec : Command → JobQueue → JobQueue × Answer
exec (offers id) q = let r = JobQueue.offer id q in (r.0, offered r.1)
exec takes_next q = took_from q (JobQueue.take q)
exec (completes id) q = completed_to q (JobQueue.complete id q)
exec closes q = (JobQueue.close q, was_closed)

abbrev pub took_of : Fifo → Fifo.Taken → Fifo × Answer
took_of s Fifo.waits = (s, must_wait)
took_of s Fifo.stopped = (s, told_to_stop)
took_of s (Fifo.takes id s') = (s', took id)

unfoldable pub perform : Command → Fifo → Fifo × Answer
perform (offers id) s = let r = Fifo.offer id s in (r.0, offered r.1)
perform takes_next s = took_of s (Fifo.take s)
perform (completes id) s = (Fifo.complete id s, completed)
perform closes s = (Fifo.close s, was_closed)

-- A worker completes only an ID that it has taken; after the end, any.
unfoldable pub is_allowed : Command → Fifo → Bool
is_allowed (completes id) s =
    if s.closed then true else elim (s.busy id) [ none ↦ false | some b ↦ true ]
is_allowed (offers id) s = true
is_allowed takes_next s = true
is_allowed closes s = true

unfoldable pub run : List Command → JobQueue → JobQueue × List Answer
run [] q = (q, [])
run (c ∷ cs) q = let r = exec c q in let rest = run cs r.0 in (rest.0, r.1 ∷ rest.1)

unfoldable pub run_fifo : List Command → Fifo → Fifo × List Answer
run_fifo [] s = (s, [])
run_fifo (c ∷ cs) s = let r = perform c s in let rest = run_fifo cs r.0 in (rest.0, r.1 ∷ rest.1)

unfoldable pub are_allowed : List Command → Fifo → Bool
are_allowed [] s = true
are_allowed (c ∷ cs) s =
    let rest = are_allowed cs (perform c s).0 in if is_allowed c s then rest else false
