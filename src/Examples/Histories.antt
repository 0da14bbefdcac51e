-- ===== src/Examples/Histories.antt =====
-- A history of the hint queue: a merged, a refused and a repeated hint, and the end.
use dogx.Common.{◌≡◌, refl, true, false, List, [], ◌∷◌, arith}
use dogx.JobQueue.{new_job_queue}
use dogx.JobQueue.Commands.{
  Command, offers, takes_next, completes, closes, offered, took, told_to_stop, completed,
  was_closed, run, run_fifo, perform, is_allowed, are_allowed,
}
use dogx.JobQueue.Fifo
use dogx.JobQueue.Fifo.{new_fifo}
use dogx.JobQueue.Views.{view}
use dogx.JobQueue.Refines.{run-run_fifo}

abbrev calls : List Command
calls =
    offers 7
    ∷ offers 8
    ∷ offers 9
    ∷ offers 8
    ∷ takes_next
    ∷ offers 7
    ∷ completes 7
    ∷ takes_next
    ∷ closes
    ∷ takes_next
    ∷ []

calls_allowed : are_allowed calls (new_fifo 2) ≡ true
unfolding are_allowed is_allowed perform new_fifo Fifo.offer Fifo.take Fifo.complete Fifo.close
calls_allowed = refl

answers :
    (run_fifo calls (new_fifo 2)).1
    ≡ offered true
      ∷ offered true
      ∷ offered false
      ∷ offered true
      ∷ took 7
      ∷ offered true
      ∷ completed
      ∷ took 8
      ∷ was_closed
      ∷ told_to_stop
      ∷ []
unfolding run_fifo perform new_fifo Fifo.offer Fifo.take Fifo.complete Fifo.close
answers = refl

run-run_fifo_example :
    (view (run calls (new_job_queue 2)).0, (run calls (new_job_queue 2)).1)
    ≡ run_fifo calls (new_fifo 2)
run-run_fifo_example = run-run_fifo 2 calls (omega arith) calls_allowed
