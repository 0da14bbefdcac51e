-- ===== src/Registrar.antt =====
-- apps/job/internal/dispatch/registrar.go: the transactions that give an attempt permission to be sent.
-- `Text` is what the code takes of Go's standard library to read a frozen configuration. The call's
-- own two-second budget ends a statement with an error, which is a fault of the environment.
pub mod Starts
pub mod Retry
pub mod Registers
pub mod Retries
pub mod RetryWays
use Prim.Native.String.{String}
use dogx.Common.{
  ℕ, ◌+◌, ◌*◌, ◌==◌, ltb, leb, is_none, if◌then◌else◌, ◌&&◌, ◌||◌, not, Bool, true, false, Option,
  none, some,
}
use dogx.Model.{Time, is_zero, second, Signed, is_neg, Snapshot}
use dogx.Model.Instance
use dogx.Model.Instance.{JobInstance, ExecutionMode}
use dogx.Database.{
  Fault, invalid_argument, invalid_facts, invalid_config, Result, ok, err, in_transaction,
}
use dogx.TaskStore.Dispatch.{total_attempts}
use dogx.TaskStore.Start.{insert_ordinary, RegisteredTask, register_ordinary_retry}
use dogx.InstanceStore.Writes.{start_execution}
use dogx.Transaction.{
  Db, Env, Tx, ◌>>=◌, return, fail, query, write_instances, write_tasks, database_time, transact,
}
use dogx.Stop.{find_instance, lock_error, is_set, is_after}

-- model.ExecutionConfig
pub record ExecutionConfig : Type 0 where
  pub schema_version : ℕ
  pub processor_name : String
  pub execution_mode : ExecutionMode
  pub post_enabled : Bool
  pub params : String
  pub max_retries : Signed
  pub retry_interval_seconds : ℕ
  pub timeout_seconds : ℕ

pub record RegisteredAttempt : Type 0 where
  pub job_id : ℕ
  pub instance_id : ℕ
  pub executor_group_id : ℕ
  pub task_id : ℕ
  pub attempt_no : ℕ
  pub execution_config : ExecutionConfig
  pub registered_at : Time
  pub deadline_at : Time

-- json.Unmarshal into an ExecutionConfig, strings.TrimSpace(s) == "", utf8.RuneCountInString,
-- utf8.ValidString, and strings.ContainsRune(s, 0).
pub record Text : Type 0 where
  pub unmarshal : Snapshot → Option ExecutionConfig
  pub is_blank : String → Bool
  pub rune_count : String → ℕ
  pub is_utf8 : String → Bool
  pub has_nul : String → Bool

abbrev pub is_normal : ExecutionMode → Bool
is_normal ExecutionMode.normal = true
is_normal _ = false

abbrev pub is_sharded : ExecutionMode → Bool
is_sharded ExecutionMode.sharded = true
is_sharded _ = false

-- job_instance_repository.go: LockForExecution
unfoldable pub lock_for_execution : ℕ → Tx (Option JobInstance)
unfolding find_instance
lock_for_execution id = query (lock_error true) (λ db. find_instance id db.instances)

abbrev pub attempt_of : JobInstance → ExecutionConfig → ℕ → ℕ → Time → Time → RegisteredAttempt
attempt_of i c task_id attempt_no registered_at deadline_at = record {
  job_id = i.job_id;
  instance_id = i.id;
  executor_group_id = i.executor_group_id;
  task_id = task_id;
  attempt_no = attempt_no;
  execution_config = c;
  registered_at = registered_at;
  deadline_at = deadline_at;
}

module _ (text : Text) where
  unfoldable pub valid_config : ExecutionConfig → Bool
  valid_config c =
      is_normal c.execution_mode
      && not c.post_enabled
      && not (is_neg c.max_retries)
      && not (c.retry_interval_seconds == 0)
      && not (c.timeout_seconds == 0)
      && not (text.is_blank c.processor_name)
      && leb (text.rune_count c.processor_name) 128
      && text.is_utf8 c.processor_name
      && not (text.has_nul c.processor_name)
      && text.is_utf8 c.params
      && not (text.has_nul c.params)

  unfoldable pub decode_config : Snapshot → Result ExecutionConfig
  unfolding valid_config
  decode_config snapshot = elim (text.unmarshal snapshot) [
    | none ↦ err invalid_config
    | some c ↦
        if not (c.schema_version == 1)
        then err invalid_config
        else if is_sharded c.execution_mode
        then ok c
        else if valid_config c
        then ok c
        else err invalid_config
  ]

  -- The inserted Task's ID.
  unfoldable pub started_attempt :
      JobInstance → ExecutionConfig → Time → Time → ℕ → Tx (Option RegisteredAttempt)
  started_attempt i c now deadline task_id =
      if task_id == 0
      then fail invalid_facts
      else return (some (attempt_of i c task_id 1 now deadline))

  -- `next_id` is what the identity sequence hands out. A missed conditional update under the lock is
  -- an invariant failure.
  unfoldable pub start_task :
      ℕ → JobInstance → ExecutionConfig → Time → Time → Bool → Tx (Option RegisteredAttempt)
  unfolding started_attempt
  start_task next_id i c now deadline false = fail invalid_facts
  start_task next_id i c now deadline true =
      write_tasks (λ fault _ db. insert_ordinary fault next_id i.id now db.tasks)
      >>= started_attempt i c now deadline

  unfoldable pub start_at : ℕ → JobInstance → ExecutionConfig → Time → Tx (Option RegisteredAttempt)
  unfolding start_task
  start_at next_id i c now =
      if is_zero now
      then fail invalid_facts
      else write_instances (λ fault _ db.
        start_execution fault i.id now (now + c.timeout_seconds * second) db.instances)
        >>= start_task next_id i c now (now + c.timeout_seconds * second)

  unfoldable pub start_decoded :
      ℕ → JobInstance → Result ExecutionConfig → Tx (Option RegisteredAttempt)
  unfolding start_at database_time
  start_decoded next_id i (err e) = fail e
  start_decoded next_id i (ok c) =
      if is_sharded c.execution_mode
      then return none
      else if i.job_id == 0 || i.executor_group_id == 0
      then fail invalid_facts
      else database_time >>= start_at next_id i c

  unfoldable pub start_found : ℕ → ℕ → Option JobInstance → Tx (Option RegisteredAttempt)
  unfolding start_decoded decode_config
  start_found next_id id none = return none
  start_found next_id id (some i) =
      if not (Instance.is_waiting i.status)
      then return none
      else if not
          (i.id == id && is_none i.started_at && is_none i.deadline_at && is_none i.finished_at)
      then fail invalid_facts
      else start_decoded next_id i (decode_config i.execution_config)

  unfoldable pub start_ordinary : ℕ → ℕ → Env → Db → Db × Result (Option RegisteredAttempt)
  unfolding start_found lock_for_execution transact
  start_ordinary next_id id env db =
      if id == 0
      then (db, err invalid_argument)
      else transact (lock_for_execution id >>= start_found next_id id) env db
