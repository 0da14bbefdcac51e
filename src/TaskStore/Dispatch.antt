-- ===== src/TaskStore/Dispatch.antt =====
-- job_task_repository.go: BindExecutor, SaveDispatchBusy, SaveDispatchRejection and the
-- classification of their errors. The UUID version and the address syntax are tests of the caller's
-- choice; `interval` is the length that PostgreSQL gives to a number of seconds.
use Prim.Native.String.{String}
use dogx.Common.{
  ℕ, ◌+◌, ◌-◌, ◌*◌, ◌==◌, ltb, is_none, if◌then◌else◌, ◌&&◌, ◌||◌, not, Bool, none, some, List,
}
use dogx.Model.{Time, Signed, nonneg, neg, is_neg, EndReason, second}
use dogx.Model.Task
use dogx.Model.Task.{JobTask, TaskStatus}
use dogx.Database.{
  Fault, postgres, SqlState, Error, invalid_dispatch_write, dispatch_write_rejected, driver, Result,
  err, Reply, Handle, pool, in_transaction, commit_update, one_row,
}

pub record ExecutorBinding : Type 0 where
  pub task_id : ℕ
  pub instance_id : ℕ
  pub attempt_no : ℕ
  pub executor_instance_id : ℕ
  pub executor_address : String

pub record DispatchBusyWrite : Type 0 where
  pub task_id : ℕ
  pub instance_id : ℕ
  pub attempt_no : ℕ
  pub delay : ℕ

pub record DispatchRejectionWrite : Type 0 where
  pub task_id : ℕ
  pub instance_id : ℕ
  pub attempt_no : ℕ
  pub max_retries : Signed
  pub retry_interval_seconds : ℕ
  pub summary : String

-- The statement's own error: a rejection of its data, of a constraint or of its access is final.
unfoldable pub dispatch_write_error : Fault → Error
dispatch_write_error (postgres SqlState.data_exception) =
    dispatch_write_rejected (postgres SqlState.data_exception)
dispatch_write_error (postgres SqlState.integrity_violation) =
    dispatch_write_rejected (postgres SqlState.integrity_violation)
dispatch_write_error (postgres SqlState.access_rule_violation) =
    dispatch_write_rejected (postgres SqlState.access_rule_violation)
dispatch_write_error f = driver f

-- id = ? AND instance_id = ? AND attempt_no = ?
abbrev pub is_attempt : ℕ → ℕ → ℕ → JobTask → Bool
is_attempt task_id instance_id attempt_no t =
    t.id == task_id && t.instance_id == instance_id && t.attempt_no == attempt_no

abbrev pub is_unbound : JobTask → Bool
is_unbound t = is_none t.executor_instance_id && is_none t.executor_address

unfoldable pub accepts_binding : ExecutorBinding → JobTask → Bool
accepts_binding b t =
    is_attempt b.task_id b.instance_id b.attempt_no t && Task.is_running t.status && is_unbound t

unfoldable pub bound : ExecutorBinding → Time → JobTask → JobTask
bound b now t = record t {
  executor_instance_id = some b.executor_instance_id;
  executor_address = some b.executor_address;
  updated_at = now;
}

unfoldable pub bind_executor :
    (ℕ → Bool)
    → (String → Bool)
    → Reply
    → Time
    → ExecutorBinding
    → List JobTask
    → List JobTask × Result Bool
bind_executor is_uuid4 valid_address reply now b rows =
    if b.task_id == 0
      || b.instance_id == 0
      || b.attempt_no == 0
      || not (is_uuid4 b.executor_instance_id)
      || not (valid_address b.executor_address)
    then (rows, err invalid_dispatch_write)
    else one_row dispatch_write_error (commit_update reply (accepts_binding b) (bound b now) rows)

-- The running, unbound attempt of an ordinary Task that has used an opportunity.
abbrev pub accepts_refusal : ℕ → ℕ → ℕ → JobTask → Bool
accepts_refusal task_id instance_id attempt_no t =
    is_attempt task_id instance_id attempt_no t
    && Task.is_ordinary t.task_type
    && Task.is_running t.status
    && ltb 0 t.used_attempts
    && is_unbound t

unfoldable pub busy : (ℕ → ℕ) → DispatchBusyWrite → Time → JobTask → JobTask
busy interval w now t = record t {
  status = TaskStatus.retry_waiting;
  used_attempts = t.used_attempts - 1;
  next_dispatch_at = some (now + interval w.delay);
  result_data = none;
  result_summary = some "executor is busy; task was not accepted";
  finished_at = none;
  end_reason = none;
  updated_at = now;
}

unfoldable pub save_dispatch_busy :
    (ℕ → ℕ) → Handle → Reply → Time → DispatchBusyWrite → List JobTask → List JobTask × Result Bool
save_dispatch_busy interval in_transaction reply now w rows = (rows, err invalid_dispatch_write)
save_dispatch_busy interval pool reply now w rows =
    if w.task_id == 0 || w.instance_id == 0 || w.attempt_no == 0 || w.delay == 0
    then (rows, err invalid_dispatch_write)
    else one_row dispatch_write_error (
        commit_update reply (accepts_refusal w.task_id w.instance_id w.attempt_no)
          (busy interval w now) rows)

-- CASE WHEN used_attempts < total THEN retry ELSE final failure, with the row's own count.
unfoldable pub rejected : DispatchRejectionWrite → ℕ → Time → JobTask → JobTask
rejected w total now t = record t {
  status = if ltb t.used_attempts total then TaskStatus.retry_waiting else TaskStatus.failed;
  next_dispatch_at =
      if ltb t.used_attempts total then some (now + w.retry_interval_seconds * second) else none;
  finished_at = if ltb t.used_attempts total then none else some now;
  end_reason = if ltb t.used_attempts total then none else some EndReason.dispatch_rejected;
  result_data = none;
  result_summary = some w.summary;
  updated_at = now;
}

-- int64(MaxRetries) + 1, for a setting that is not negative.
abbrev pub total_attempts : Signed → ℕ
total_attempts (nonneg n) = n + 1
total_attempts (neg _) = 0

unfoldable pub save_dispatch_rejection :
    Handle → Reply → Time → DispatchRejectionWrite → List JobTask → List JobTask × Result Bool
save_dispatch_rejection in_transaction reply now w rows = (rows, err invalid_dispatch_write)
save_dispatch_rejection pool reply now w rows =
    if w.task_id == 0
      || w.instance_id == 0
      || w.attempt_no == 0
      || is_neg w.max_retries
      || w.retry_interval_seconds == 0
    then (rows, err invalid_dispatch_write)
    else one_row dispatch_write_error (
        commit_update reply (accepts_refusal w.task_id w.instance_id w.attempt_no)
          (rejected w (total_attempts w.max_retries) now) rows)
