-- ===== src/TaskStore/Outcome.antt =====
-- job_task_repository.go: SaveResult, SettleOrdinaryUnknown and CancelUnfinished, the writes that
-- close an attempt or a Task.
use Prim.Native.String.{String}
use dogx.Common.{
  ℕ, ◌+◌, ◌*◌, ◌==◌, ltb, if◌then◌else◌, ◌&&◌, ◌||◌, not, Bool, true, false, Option, none, some,
  List, [], ◌∷◌, select,
}
use dogx.Model.{Time, is_zero, EndReason, second}
use dogx.Model.Task
use dogx.Model.Task.{JobTask, TaskStatus}
use dogx.Database.{
  Fault, invalid_argument, needs_transaction, needs_independent_commit, invalid_facts, driver,
  Result, ok, err, Reply, done, aborted, unconfirmed, Handle, pool, in_transaction, update,
  affected, commit_update, one_row, sql_le, elem,
}
use dogx.TaskStore.Dispatch.{is_attempt, is_unbound}

pub record TaskResultWrite : Type 0 where
  pub task_id : ℕ
  pub instance_id : ℕ
  pub attempt_no : ℕ
  pub executor_instance_id : ℕ
  pub status : TaskStatus
  pub data_ : Option (List ℕ)
  pub summary : String
  pub retry_interval_seconds : ℕ

-- A write's own checks, past the identities.
unfoldable pub valid_result_status : TaskStatus → ℕ → Bool
valid_result_status TaskStatus.succeeded interval = true
valid_result_status TaskStatus.retry_waiting interval = ltb 0 interval
valid_result_status TaskStatus.failed interval = true
valid_result_status _ interval = false

-- executor_instance_id IS NULL OR executor_instance_id = ?
abbrev pub absent_or : ℕ → Option ℕ → Bool
absent_or i none = true
absent_or i (some j) = j == i

unfoldable pub accepts_result : TaskResultWrite → JobTask → Bool
accepts_result w t =
    is_attempt w.task_id w.instance_id w.attempt_no t
    && Task.is_running t.status
    && absent_or w.executor_instance_id t.executor_instance_id

-- The columns that depend on the outcome: data, finish time, reason and next dispatch.
abbrev pub result_values :
    TaskStatus
    → TaskResultWrite
    → Time
    → Option (List ℕ) × Option Time × Option EndReason × Option Time
result_values TaskStatus.succeeded w now = (w.data_, some now, some EndReason.success, none)
result_values TaskStatus.retry_waiting w now =
    (none, none, none, some (now + w.retry_interval_seconds * second))
result_values _ w now = (none, some now, some EndReason.execution_failed, none)

unfoldable pub resulted : TaskResultWrite → Time → JobTask → JobTask
resulted w now t =
    let v = result_values w.status w now in
    record t {
      status = w.status;
      result_data = v.0;
      result_summary = some w.summary;
      finished_at = v.1;
      end_reason = v.2;
      next_dispatch_at = v.3;
      updated_at = now;
    }

unfoldable pub valid_result_write : (ℕ → Bool) → TaskResultWrite → Bool
unfolding valid_result_status
valid_result_write is_uuid4 w =
    not (w.task_id == 0)
    && not (w.instance_id == 0)
    && not (w.attempt_no == 0)
    && is_uuid4 w.executor_instance_id
    && valid_result_status w.status w.retry_interval_seconds

unfoldable pub save_result :
    (ℕ → Bool) → Handle → Reply → Time → TaskResultWrite → List JobTask → List JobTask × Result Bool
save_result is_uuid4 handle reply now w rows =
    if valid_result_write is_uuid4 w
    then elim handle [
      | in_transaction ↦ (rows, err needs_independent_commit)
      | pool ↦ one_row driver (commit_update reply (accepts_result w) (resulted w now) rows)
    ]
    else (rows, err invalid_argument)

pub record UnknownSettlement : Type 0 where
  pub task_id : ℕ
  pub instance_id : ℕ
  pub expected_attempt_no : ℕ
  pub max_attempts : ℕ
  pub processed_at : Time
  pub observation_cutoff : Time
  pub retry_at : Time

pub record SettledTask : Type 0 where
  pub task_id : ℕ
  pub instance_id : ℕ
  pub attempt_no : ℕ
  pub status : TaskStatus

abbrev pub unknown_result_summary : String
unknown_result_summary =
    "execution result is unknown; executor binding and result were not recorded"

unfoldable pub accepts_settlement : UnknownSettlement → JobTask → Bool
accepts_settlement w t =
    is_attempt w.task_id w.instance_id w.expected_attempt_no t
    && Task.is_ordinary t.task_type
    && Task.is_running t.status
    && is_unbound t
    && sql_le t.attempt_registered_at w.observation_cutoff

unfoldable pub settled : UnknownSettlement → JobTask → JobTask
settled w t = record t {
  status =
      if ltb t.used_attempts w.max_attempts then TaskStatus.retry_waiting else TaskStatus.failed;
  next_dispatch_at = if ltb t.used_attempts w.max_attempts then some w.retry_at else none;
  finished_at = if ltb t.used_attempts w.max_attempts then none else some w.processed_at;
  end_reason = if ltb t.used_attempts w.max_attempts then none else some EndReason.result_unknown;
  result_data = none;
  result_summary = some unknown_result_summary;
  updated_at = w.processed_at;
}

-- RETURNING the accepted rows, as the statement leaves them, with the checks of the answer.
unfoldable pub settled_facts : UnknownSettlement → List JobTask → Result (Option SettledTask)
unfolding settled
settled_facts w [] = ok none
settled_facts w (t ∷ []) =
    let u = settled w t in
    if is_attempt w.task_id w.instance_id w.expected_attempt_no u
      && (Task.is_retry_waiting u.status || Task.is_failed u.status)
    then ok (
        some (record {
          task_id = u.id;
          instance_id = u.instance_id;
          attempt_no = u.attempt_no;
          status = u.status;
        }))
    else err invalid_facts
settled_facts w (t ∷ u ∷ ts) = err invalid_facts

-- A refused count rolls the transaction back; otherwise the commit is answered by `reply`.
unfoldable pub settle_commit :
    UnknownSettlement
    → Reply
    → List JobTask
    → Result (Option SettledTask)
    → List JobTask × Result (Option SettledTask)
settle_commit w (aborted f) rows facts = (rows, err (driver f))
settle_commit w reply rows (err e) = (rows, err e)
settle_commit w done rows (ok facts) = (update (accepts_settlement w) (settled w) rows, ok facts)
settle_commit w (unconfirmed f) rows (ok facts) =
    (update (accepts_settlement w) (settled w) rows, err (driver f))

-- The identities and times, and the order of the three times.
unfoldable pub valid_settlement : UnknownSettlement → Bool
valid_settlement w =
    not (w.task_id == 0)
    && not (w.instance_id == 0)
    && not (w.expected_attempt_no == 0)
    && not (w.max_attempts == 0)
    && not (is_zero w.processed_at)
    && not (is_zero w.observation_cutoff)
    && not (is_zero w.retry_at)
    && ltb w.observation_cutoff w.processed_at
    && ltb w.processed_at w.retry_at

-- The transaction of the settlement, past the checks.
unfoldable pub settle_transaction :
    Reply → UnknownSettlement → List JobTask → List JobTask × Result (Option SettledTask)
settle_transaction reply w rows =
    settle_commit w reply rows (settled_facts w (select (accepts_settlement w) rows))

unfoldable pub settle_ordinary_unknown :
    Handle → Reply → UnknownSettlement → List JobTask → List JobTask × Result (Option SettledTask)
settle_ordinary_unknown handle reply w rows =
    if valid_settlement w
    then elim handle [
      | in_transaction ↦ (rows, err needs_independent_commit)
      | pool ↦ settle_transaction reply w rows
    ]
    else (rows, err invalid_argument)

pub record TaskCancellation : Type 0 where
  pub instance_id : ℕ
  pub task_ids : List ℕ
  pub reason : EndReason
  pub summary : String
  pub processed_at : Time

abbrev pub is_stop_reason : EndReason → Bool
is_stop_reason EndReason.manual_stop = true
is_stop_reason EndReason.instance_timeout = true
is_stop_reason _ = false

unfoldable pub accepts_cancellation : TaskCancellation → JobTask → Bool
accepts_cancellation w t =
    t.instance_id == w.instance_id && elem t.id w.task_ids && Task.is_unfinished t.status

unfoldable pub cancelled : TaskCancellation → JobTask → JobTask
cancelled w t = record t {
  status = TaskStatus.canceled;
  next_dispatch_at = none;
  finished_at = some w.processed_at;
  end_reason = some w.reason;
  result_data = none;
  result_summary = some w.summary;
  updated_at = w.processed_at;
}

unfoldable pub valid_cancellation : TaskCancellation → Bool
valid_cancellation w =
    elim w.task_ids [ [] ↦ false | _ ∷ _ ↦ not (elem 0 w.task_ids) ]
    && not (is_zero w.processed_at)
    && not (w.instance_id == 0)
    && is_stop_reason w.reason

unfoldable pub cancel_unfinished :
    Handle → Option Fault → TaskCancellation → List JobTask → Result (ℕ × List JobTask)
cancel_unfinished handle fault w rows =
    if valid_cancellation w
    then elim handle [
      | pool ↦ err needs_transaction
      | in_transaction ↦ elim fault [
        | some f ↦ err (driver f)
        | none ↦ ok (
          affected (accepts_cancellation w) rows,
          update (accepts_cancellation w) (cancelled w) rows,
        )
      ]
    ]
    else err invalid_argument
