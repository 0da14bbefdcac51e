-- ===== src/Examples.antt =====
-- The theorems at concrete inputs, and runs of the model.
pub mod Stopping
pub mod Dispatching
pub mod Settling
pub mod Checking
pub mod Histories
pub mod Recovering
pub mod Reporting
pub mod Scanning
pub mod Rechecking
pub mod Triggering
use Prim.Native.String.{String}
use dogx.Common.{
  ℕ, ◌≡◌, refl, Bool, true, false, none, some, List, [], ◌∷◌, ◌++◌, All, ◌≢◌, ◌⊎◌, ◌↔◌, ◌+◌, arith,
}
use dogx.Common.Assoc.{lookup, assign}
use dogx.Model.Task.{JobTask, TaskStatus}
use dogx.Model.Instance.{JobInstance, InstanceStatus, TriggerType}
use dogx.Database.{ok, done, unconfirmed, transport, pool, in_transaction}
use dogx.Database.Updates.{Rowwise}
use dogx.TaskStore.Dispatch.{ExecutorBinding, DispatchBusyWrite, save_dispatch_busy, busy}
use dogx.TaskStore.Start.{RetryRegistration, new_ordinary}
use dogx.TaskStore.Outcome.{
  TaskResultWrite, accepts_result, resulted, valid_result_write, valid_result_status, save_result,
}
use dogx.TaskStore.Consistency.{IsConsistent, new_ordinary-IsConsistent}
use dogx.TaskStore.Races.{Closer, close}
use dogx.TaskStore.Once.{close_once}
use dogx.TaskStore.History.{Write, apply, run}
use dogx.TaskStore.Evolution.{Evolves}
use dogx.TaskStore.Invariant.{Extends, Follows, run-IsConsistent, run-Extends, apply-Evolves}
use dogx.Transaction.{Db, Env}
use dogx.Stop.{request_stop}
use dogx.Stop.Request.{Answer, request_stop-Answer}
use dogx.JobQueue.{JobQueue, new_job_queue, push, offer, takes, panics, take, complete, queued}
use dogx.JobQueue.Ring.{make, set, at}
use dogx.JobQueue.Offers.{fresh}
use dogx.JobQueue.Calls.{Reach, start, next, offers, takes_next}
use dogx.JobQueue.Hints.{
  HandsOver, Refuses, take_safe, take_oldest, offer_refused, offer_new, hint_kept,
}

-- A Task in its first attempt, and what the executor and the dispatcher say of it.
abbrev any_uuid : ℕ → Bool
any_uuid _ = true

abbrev any_address : String → Bool
any_address _ = true

abbrev whole_seconds : ℕ → ℕ
whole_seconds n = n

abbrev first_rows : List JobTask
first_rows = new_ordinary 1 4 5 ∷ []

abbrev report : TaskResultWrite
report = record {
  task_id = 1;
  instance_id = 4;
  attempt_no = 1;
  executor_instance_id = 77;
  status = TaskStatus.succeeded;
  data_ = none;
  summary = "done";
  retry_interval_seconds = 0;
}

abbrev busy_answer : DispatchBusyWrite
busy_answer = record { task_id = 1; instance_id = 4; attempt_no = 1; delay = 2_000_000_000 }

-- A history: a bind whose confirmation is lost, BUSY, a retry, a result inside a transaction.
abbrev binding : ExecutorBinding
binding = record {
  task_id = 1;
  instance_id = 4;
  attempt_no = 1;
  executor_instance_id = 77;
  executor_address = "10.0.0.7:9000";
}

abbrev second_attempt : RetryRegistration
second_attempt = record {
  task_id = 1;
  instance_id = 4;
  expected_attempt_no = 1;
  max_attempts = 3;
  registered_at = 5_000_000_000;
}

abbrev history : List Write
history =
    Write.busy_reply pool done 9 busy_answer
    ∷ Write.register in_transaction none second_attempt
    ∷ Write.bind (unconfirmed transport) 6_000_000_000 binding
    ∷ Write.result in_transaction done 7_000_000_000 report
    ∷ []

-- BUSY closes the first attempt, the second is registered, and the result of the first comes late.
abbrev refused_rows : List JobTask
refused_rows = (close any_uuid whole_seconds (Closer.busy_reply busy_answer) done 9 first_rows).0

abbrev retry_of_first : List Write
retry_of_first = Write.register in_transaction none second_attempt ∷ []

abbrev retried_rows : List JobTask
retried_rows = run any_uuid any_address whole_seconds retry_of_first refused_rows

close_once_example :
    ((close any_uuid whole_seconds (Closer.result report) done 7_000_000_000 retried_rows).0
      ≡ retried_rows)
    × ((close any_uuid whole_seconds (Closer.result report) done 7_000_000_000 retried_rows).1
        ≢ ok true)
unfolding close save_dispatch_busy busy new_ordinary
close_once_example =
    close_once any_uuid any_address whole_seconds (Closer.busy_reply busy_answer)
      (Closer.result report) done done 9 7_000_000_000 retry_of_first first_rows refused_rows
      (tt, tt) refl refl refl (refl, tt)

run-IsConsistent_example :
    All IsConsistent (run any_uuid any_address whole_seconds history first_rows)
run-IsConsistent_example =
    run-IsConsistent any_uuid any_address whole_seconds history first_rows
      (new_ordinary-IsConsistent 1 4 5, tt)

run-Extends_example :
    Extends Follows first_rows (run any_uuid any_address whole_seconds history first_rows)
run-Extends_example = run-Extends any_uuid any_address whole_seconds history first_rows

apply-Evolves_example :
    Rowwise Evolves first_rows (
      apply any_uuid any_address whole_seconds
        (Write.busy_reply pool done 9 busy_answer)
        first_rows)
    ⊎ ((t : JobTask) × (apply any_uuid any_address whole_seconds
            (Write.busy_reply pool done 9 busy_answer)
            first_rows
          ≡ t ∷ first_rows)
        × (t.attempt_no ≡ 1))
apply-Evolves_example =
    apply-Evolves any_uuid any_address whole_seconds (Write.busy_reply pool done 9 busy_answer)
      first_rows

-- A queue for two Jobs: 7 is taken while 8 waits.
abbrev two_places : JobQueue
two_places = new_job_queue 2

abbrev one_waits : JobQueue
one_waits = (offer 7 two_places).0

abbrev one_taken : JobQueue
one_taken = record {
  jobs = (7, record { processing = true; dirty = false }) ∷ [];
  buffer = 7 ∷ 0 ∷ [];
  head = 1;
  size = 0;
  closed = false;
}

one_waits-Reach : Reach 2 one_waits
one_waits-Reach = next start (offers 7)

take-one_waits : take one_waits ≡ takes 7 one_taken
unfolding take offer push new_job_queue make set at lookup assign
take-one_waits = refl

one_taken-Reach : Reach 2 one_taken
one_taken-Reach = next one_waits-Reach (takes_next 7 one_taken take-one_waits)

take_safe_example : take one_waits ≢ panics
take_safe_example = take_safe one_waits (omega arith) one_waits-Reach

take_oldest_example : HandsOver one_waits 7 one_taken
take_oldest_example = take_oldest one_waits 7 one_taken (omega arith) one_waits-Reach take-one_waits

offer_refused_example :
    (((offer 8 one_taken).1 ≡ false) ↔ Refuses one_taken 8)
    × ((offer 8 one_taken).1 ≡ false → (offer 8 one_taken).0 ≡ one_taken)
offer_refused_example = offer_refused one_taken 8

offer_new_example :
    ((offer 8 one_taken).1 ≡ true) × (queued (offer 8 one_taken).0 ≡ queued one_taken ++ 8 ∷ [])
unfolding lookup
offer_new_example = offer_new one_taken 8 (omega arith) one_taken-Reach refl refl refl

hint_kept_example :
    (q : JobQueue) × (complete 7 (offer 7 one_taken).0 ≡ some q)
    × (queued q ≡ queued one_taken ++ 7 ∷ [])
    × (lookup 7 q.jobs ≡ some fresh)
unfolding lookup
hint_kept_example =
    hint_kept one_taken 7 (record { processing = true; dirty = false }) (omega arith)
      one_taken-Reach refl refl refl

-- A running Instance past its deadline.
abbrev late_instance : JobInstance
late_instance = record {
  id = 4;
  job_id = 2;
  job_name = "report";
  executor_group_id = 3;
  trigger_type = TriggerType.scheduled;
  scheduled_at = some 1;
  request_id = none;
  params_overridden = false;
  triggered_by = none;
  execution_config = "";
  status = InstanceStatus.running;
  started_at = some 5;
  deadline_at = some 10;
  finished_at = none;
  end_reason = none;
  result_summary = none;
  created_at = 2;
  updated_at = 5;
}

abbrev late_tables : Db
late_tables = record { instances = late_instance ∷ []; tasks = first_rows }

abbrev quiet : Env
quiet = record { fault = λ _. none; clock = λ n. 11 + n; commit = done }

request_stop-Answer_example : Answer true 4 late_tables (request_stop true 4 quiet late_tables)
request_stop-Answer_example = request_stop-Answer true 4 quiet late_tables
