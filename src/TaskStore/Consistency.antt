-- ===== src/TaskStore/Consistency.antt =====
-- What holds of every row that the writes of job_task_repository.go leave: which columns are NULL
-- follows from the status, and the opportunities used never exceed the attempts numbered.
use dogx.Common.{ℕ, ◌≤◌, ◌<◌, ◌≡◌, is_some, true, arith}
use dogx.Model.{Time}
use dogx.Model.Task
use dogx.Model.Task.{JobTask, TaskStatus}
use dogx.TaskStore.Dispatch.{
  ExecutorBinding, DispatchBusyWrite, DispatchRejectionWrite, bound, busy, rejected,
}
use dogx.TaskStore.Start.{RetryRegistration, registered, new_ordinary}
use dogx.TaskStore.Outcome.{
  TaskResultWrite, resulted, UnknownSettlement, settled, TaskCancellation, cancelled,
  valid_result_status,
}

pub record IsConsistent (t : JobTask) : Type 0 where
  pub finished_iff : is_some t.finished_at ≡ Task.is_terminal t.status
  pub reason_iff : is_some t.end_reason ≡ Task.is_terminal t.status
  pub due_iff : is_some t.next_dispatch_at ≡ Task.is_retry_waiting t.status
  pub used_le : t.used_attempts ≤ t.attempt_no
  pub running_used : Task.is_running t.status ≡ true → 0 < t.used_attempts

module _ (t : JobTask) (c : IsConsistent t) where
  pub bound-IsConsistent : (b : ExecutorBinding) (now : Time) → IsConsistent (bound b now t)
  unfolding bound
  bound-IsConsistent b now = ground arith

  pub busy-IsConsistent :
      (interval : ℕ → ℕ) (w : DispatchBusyWrite) (now : Time) → IsConsistent (busy interval w now t)
  unfolding busy
  busy-IsConsistent interval w now = ground arith

  pub rejected-IsConsistent :
      (w : DispatchRejectionWrite) (total : ℕ) (now : Time) → IsConsistent (rejected w total now t)
  unfolding rejected
  rejected-IsConsistent w total now = ground arith

  pub registered-IsConsistent : (w : RetryRegistration) → IsConsistent (registered w t)
  unfolding registered
  registered-IsConsistent w = ground arith

  pub settled-IsConsistent : (w : UnknownSettlement) → IsConsistent (settled w t)
  unfolding settled
  settled-IsConsistent w = ground arith

  pub cancelled-IsConsistent : (w : TaskCancellation) → IsConsistent (cancelled w t)
  unfolding cancelled
  cancelled-IsConsistent w = ground arith

  pub resulted-IsConsistent :
      (w : TaskResultWrite) (now : Time)
      → valid_result_status w.status w.retry_interval_seconds ≡ true
      → IsConsistent (resulted w now t)
  unfolding resulted valid_result_status
  resulted-IsConsistent w now h = ground arith

pub new_ordinary-IsConsistent :
    (next_id instance_id : ℕ) (at : Time) → IsConsistent (new_ordinary next_id instance_id at)
unfolding new_ordinary
new_ordinary-IsConsistent next_id instance_id at = ground arith
