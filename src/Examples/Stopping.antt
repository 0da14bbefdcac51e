-- ===== src/Examples/Stopping.antt =====
-- The stop of an Instance at concrete inputs: the queue of stops with one worker, and a turn.
use dogx.Common.{
  ℕ, ◌≡◌, refl, Bool, true, false, none, some, List, [], ◌∷◌, ◌+◌, ◌≤◌, arith, count, length,
  remove,
}
use dogx.Model.{EndReason}
use dogx.Model.Task.{JobTask, TaskType, TaskStatus}
use dogx.Model.Instance.{JobInstance, InstanceStatus, TriggerType}
use dogx.Database.{done}
use dogx.Transaction.{Db, Env}
use dogx.Stop.{find_instance}
use dogx.StopQueue.{StopQueue, new_queue, start, hint, stop, take, complete, finish}
use dogx.StopQueue.Steps.{
  System, Reach, initial, next, starts, hints, stops, takes_one, leaves, completes,
}
use dogx.StopQueue.Workers.{one_worker, hint_held, drained}
use dogx.StopQueue.Turns.{TurnEnv, process}
use dogx.StopQueue.Quiet.{IsQuiet}
use dogx.StopQueue.Converges.{Converged, process-Converged}

-- One worker takes Instance 4, ends its turn, and leaves after the queue was stopped.
abbrev queue_of : Bool → List ℕ → List ℕ → StopQueue
queue_of stopping entries pending = record (new_queue 2) {
  started = true;
  stopping = stopping;
  entries = entries;
  pending = pending;
}

abbrev hinted : System
hinted = record { queue = (hint 4 (queue_of false [] [])).0; busy = []; left = 0 }

abbrev holding : System
holding = record { queue = queue_of false (4 ∷ []) []; busy = 4 ∷ []; left = 0 }

abbrev returned : System
returned = record {
  queue = stop (complete 4 false (queue_of false (4 ∷ []) []));
  busy = remove 4 (4 ∷ []);
  left = 1;
}

hinted-Reach : Reach 2 1 hinted
unfolding start new_queue
hinted-Reach = next (next initial (starts (queue_of false [] []) refl)) (hints 4)

holding-Reach : Reach 2 1 holding
unfolding hint take new_queue
holding-Reach = next hinted-Reach (takes_one 4 (queue_of false (4 ∷ []) []) refl (omega arith) refl)

returned-Reach : Reach 2 1 returned
unfolding complete take stop new_queue
returned-Reach =
    next (next (next holding-Reach (completes 4 false (omega arith))) stops)
      (leaves refl (omega arith) refl)

one_worker_example :
    (count 4 holding.queue.pending + count 4 holding.busy ≤ 1)
    × (length holding.queue.entries ≤ 2)
    × (count 4 holding.queue.entries ≡ count 4 holding.queue.pending + count 4 holding.busy)
one_worker_example = one_worker holding 4 (omega arith) holding-Reach

hint_held_example : count 4 (hint 4 holding.queue).0.pending + count 4 holding.busy ≡ 1
unfolding hint new_queue
hint_held_example = hint_held holding 4 (omega arith) holding-Reach refl

drained_example : (returned.queue.entries ≡ []) × ((finish returned.queue).drain_error ≡ none)
unfolding stop complete new_queue
drained_example = drained returned (omega arith) returned-Reach refl refl

-- A stopped Instance with two children, one of them waiting for a retry, in batches of one.
abbrev child : ℕ → TaskStatus → JobTask
child id status = record {
  id = id;
  instance_id = 4;
  task_type = TaskType.ordinary;
  status = status;
  attempt_no = 1;
  used_attempts = 1;
  attempt_registered_at = some 5;
  next_dispatch_at = none;
  executor_instance_id = none;
  executor_address = none;
  result_data = none;
  result_summary = none;
  end_reason = none;
  started_at = some 5;
  finished_at = none;
  created_at = 5;
  updated_at = 5;
}

abbrev pub stopped_instance : JobInstance
stopped_instance = record {
  id = 4;
  job_id = 2;
  job_name = "report";
  executor_group_id = 3;
  trigger_type = TriggerType.scheduled;
  scheduled_at = some 1;
  request_id = none;
  params_overridden = false;
  triggered_by = none;
  execution_config = "";
  status = InstanceStatus.stopping;
  started_at = some 5;
  deadline_at = some 10;
  finished_at = none;
  end_reason = some EndReason.manual_stop;
  result_summary = none;
  created_at = 2;
  updated_at = 5;
}

abbrev stopped_tables : Db
stopped_tables = record {
  instances = stopped_instance ∷ [];
  tasks = child 1 TaskStatus.running ∷ child 2 TaskStatus.retry_waiting ∷ [];
}

abbrev answering : Env
answering = record { fault = λ _. none; clock = λ n. 11 + n; commit = done }

abbrev whole_turn : TurnEnv
whole_turn = record { ended = λ _. false; batch = λ _. answering; late = λ _. false }

answering-IsQuiet : IsQuiet answering
answering-IsQuiet = record { works = λ n. refl; runs = λ n. ground arith; commits = refl }

process-Converged_example :
    Converged stopped_instance EndReason.manual_stop stopped_tables.tasks
      (process 1 4 3 whole_turn 0 stopped_tables)
unfolding find_instance
process-Converged_example =
    process-Converged 1 whole_turn stopped_instance EndReason.manual_stop (omega arith)
      (record { runs_on = λ k. refl; in_time = λ k. refl; quiet = λ k. answering-IsQuiet })
      (record {
        positive = refl;
        stopping = refl;
        reasoned = refl;
        stop_reason = refl;
        unfinished_yet = refl;
      })
      3 0 stopped_tables refl (tt, tt) (ground arith) (omega arith)
