-- ===== src/TaskStore/Start.antt =====
-- job_task_repository.go: InsertOrdinary and RegisterOrdinaryRetry, the two writes that give an
-- attempt its number. Both run in the caller's open transaction, so a failed statement changes
-- nothing; `fault` says whether it fails. The identity sequence hands out `next_id`.
use Prim.Native.Nat.{ℕ}
use dogx.Common.{
  ◌+◌, ◌==◌, leb, ltb, if◌then◌else◌, ◌&&◌, ◌||◌, not, Bool, false, Option, none, some, List, [],
  ◌∷◌, select,
}
use dogx.Model.{Time, is_zero}
use dogx.Model.Task
use dogx.Model.Task.{JobTask, TaskType, TaskStatus}
use dogx.Database.{
  Fault, postgres, SqlState, invalid_argument, needs_transaction, invalid_facts, driver, Result, ok,
  err, Handle, pool, in_transaction, update, sql_le,
}
use dogx.TaskStore.Dispatch.{is_attempt}

pub record RetryRegistration : Type 0 where
  pub task_id : ℕ
  pub instance_id : ℕ
  pub expected_attempt_no : ℕ
  pub max_attempts : ℕ
  pub registered_at : Time

pub record RegisteredTask : Type 0 where
  pub task_id : ℕ
  pub instance_id : ℕ
  pub attempt_no : ℕ
  pub used_attempts : ℕ
  pub registered_at : Time

unfoldable pub new_ordinary : ℕ → ℕ → Time → JobTask
new_ordinary next_id instance_id started_at = record {
  id = next_id;
  instance_id = instance_id;
  task_type = TaskType.ordinary;
  status = TaskStatus.running;
  attempt_no = 1;
  used_attempts = 1;
  attempt_registered_at = some started_at;
  next_dispatch_at = none;
  executor_instance_id = none;
  executor_address = none;
  result_data = none;
  result_summary = none;
  end_reason = none;
  started_at = some started_at;
  finished_at = none;
  created_at = started_at;
  updated_at = started_at;
}

-- uq_job_task_singleton: one ordinary Task for each Instance.
unfoldable pub has_ordinary : ℕ → List JobTask → Bool
has_ordinary instance_id [] = false
has_ordinary instance_id (t ∷ ts) =
    t.instance_id == instance_id && Task.is_ordinary t.task_type || has_ordinary instance_id ts

unfoldable pub insert_ordinary :
    Option Fault → ℕ → ℕ → Time → List JobTask → Result (ℕ × List JobTask)
insert_ordinary fault next_id instance_id started_at rows =
    if instance_id == 0 || is_zero started_at then err invalid_argument else elim fault [
      | some f ↦ err (driver f)
      | none ↦
          if has_ordinary instance_id rows
          then err (driver (postgres SqlState.integrity_violation))
          else ok (next_id, new_ordinary next_id instance_id started_at ∷ rows)
    ]

unfoldable pub accepts_registration : RetryRegistration → JobTask → Bool
accepts_registration w t =
    is_attempt w.task_id w.instance_id w.expected_attempt_no t
    && Task.is_ordinary t.task_type
    && Task.is_retry_waiting t.status
    && sql_le t.next_dispatch_at w.registered_at
    && ltb t.used_attempts w.max_attempts

unfoldable pub registered : RetryRegistration → JobTask → JobTask
registered w t = record t {
  status = TaskStatus.running;
  attempt_no = t.attempt_no + 1;
  used_attempts = t.used_attempts + 1;
  attempt_registered_at = some w.registered_at;
  next_dispatch_at = none;
  executor_instance_id = none;
  executor_address = none;
  result_data = none;
  finished_at = none;
  end_reason = none;
  updated_at = w.registered_at;
}

-- The largest values of the INTEGER and BIGINT columns; beyond them PostgreSQL answers 22003.
abbrev pub max_int32 : ℕ
max_int32 = 2_147_483_647

abbrev pub max_int64 : ℕ
max_int64 = 9_223_372_036_854_775_807

unfoldable pub overflows : JobTask → Bool
overflows t = leb max_int32 t.used_attempts || leb max_int64 t.attempt_no

-- RETURNING, with the check of the row count.
unfoldable pub returned :
    List JobTask → List JobTask → Result (Option RegisteredTask × List JobTask)
returned [] rows = ok (none, rows)
returned (t ∷ []) rows = elim t.attempt_registered_at [
  | none ↦ err invalid_facts
  | some at ↦ ok (
    some (record {
      task_id = t.id;
      instance_id = t.instance_id;
      attempt_no = t.attempt_no;
      used_attempts = t.used_attempts;
      registered_at = at;
    }),
    rows,
  )
]
returned (t ∷ u ∷ ts) rows = err invalid_facts

-- The accepted rows as the statement finds them.
unfoldable pub overflow_check :
    RetryRegistration → List JobTask → List JobTask → Result (Option RegisteredTask × List JobTask)
unfolding overflows returned registered accepts_registration
overflow_check w [] rows = ok (none, rows)
overflow_check w (t ∷ ts) rows =
    if overflows t
    then err (driver (postgres SqlState.data_exception))
    else returned (registered w t ∷ ts) (update (accepts_registration w) (registered w) rows)

unfoldable pub valid_registration : RetryRegistration → Bool
valid_registration w =
    not (w.task_id == 0)
    && not (w.instance_id == 0)
    && not (w.expected_attempt_no == 0)
    && not (w.max_attempts == 0)
    && not (is_zero w.registered_at)

unfoldable pub register_ordinary_retry :
    Handle
    → Option Fault
    → RetryRegistration
    → List JobTask
    → Result (Option RegisteredTask × List JobTask)
register_ordinary_retry handle fault w rows =
    if valid_registration w
    then elim handle [
      | pool ↦ err needs_transaction
      | in_transaction ↦ elim fault [
        | some f ↦ err (driver f)
        | none ↦ overflow_check w (select (accepts_registration w) rows) rows
      ]
    ]
    else err invalid_argument
