-- ===== src/Registrar/Retry.antt =====
-- dispatch/registrar.go: RetryOrdinary. The answer carries the ID of the hint that is given after a
-- successful end of the transaction, if one is.
use dogx.Common.{
  ℕ, ◌+◌, ◌==◌, leb, is_none, if◌then◌else◌, ◌&&◌, ◌||◌, not, Bool, true, false, Option, none, some,
}
use dogx.Model.{Time, is_zero}
use dogx.Model.Instance
use dogx.Model.Instance.{JobInstance}
use dogx.Database.{invalid_argument, invalid_facts, Result, ok, err, in_transaction}
use dogx.TaskStore.Dispatch.{total_attempts}
use dogx.TaskStore.Start.{RetryRegistration, RegisteredTask, register_ordinary_retry}
use dogx.Transaction.{Db, Env, Tx, ◌>>=◌, return, fail, write_tasks, database_time, transact}
use dogx.Stop.{is_set, is_after}
use dogx.Registrar.{
  ExecutionConfig, RegisteredAttempt, Text, attempt_of, is_sharded, lock_for_execution,
  decode_config,
}

pub record RetryCandidate : Type 0 where
  pub task_id : ℕ
  pub instance_id : ℕ
  pub attempt_no : ℕ
  pub next_dispatch_at : Time

-- The attempt, and whether the parent is to be checked.
abbrev pub Granted : Type 0
Granted = Option RegisteredAttempt × Bool

abbrev pub registration : RetryCandidate → ExecutionConfig → Time → RetryRegistration
registration r c now = record {
  task_id = r.task_id;
  instance_id = r.instance_id;
  expected_attempt_no = r.attempt_no;
  max_attempts = total_attempts c.max_retries;
  registered_at = now;
}

-- The checks of the returned row.
unfoldable pub valid_registered : RetryCandidate → ExecutionConfig → Time → RegisteredTask → Bool
valid_registered r c now t =
    t.task_id == r.task_id
    && t.instance_id == r.instance_id
    && t.attempt_no == r.attempt_no + 1
    && not (t.used_attempts == 0)
    && leb t.used_attempts (total_attempts c.max_retries)
    && t.registered_at == now

unfoldable pub retry_registered :
    RetryCandidate
    → JobInstance
    → ExecutionConfig
    → Time
    → Time
    → Option RegisteredTask
    → Tx Granted
unfolding valid_registered
retry_registered r i c now deadline none = return (none, false)
retry_registered r i c now deadline (some t) =
    if valid_registered r c now t
    then return (some (attempt_of i c t.task_id t.attempt_no t.registered_at deadline), false)
    else fail invalid_facts

unfoldable pub retry_decoded :
    RetryCandidate → JobInstance → Time → Time → Result ExecutionConfig → Tx Granted
unfolding retry_registered
retry_decoded r i now deadline (err e) = fail e
retry_decoded r i now deadline (ok c) =
    if is_sharded c.execution_mode
    then return (none, false)
    else write_tasks
        (λ fault _ db. register_ordinary_retry in_transaction fault (registration r c now) db.tasks)
      >>= retry_registered r i c now deadline

-- The facts of a running parent.
unfoldable pub valid_running : JobInstance → Bool
valid_running i =
    is_set i.started_at
    && is_after i.deadline_at i.started_at
    && is_none i.finished_at
    && not (i.job_id == 0)
    && not (i.executor_group_id == 0)

module _ (text : Text) where
  -- At the time under the lock; a missing deadline has been refused before.
  unfoldable pub retry_at : RetryCandidate → JobInstance → Time → Tx Granted
  unfolding retry_decoded valid_running decode_config
  retry_at r i now =
      if is_zero now || not (valid_running i) then fail invalid_facts else elim i.deadline_at [
        | none ↦ fail invalid_facts
        | some deadline ↦
            if leb deadline now
            then return (none, true)
            else retry_decoded r i now deadline (decode_config text i.execution_config)
      ]

  unfoldable pub retry_found : RetryCandidate → Option JobInstance → Tx Granted
  unfolding retry_at database_time
  retry_found r none = return (none, false)
  retry_found r (some i) =
      if not (i.id == r.instance_id)
      then fail invalid_facts
      else if not (Instance.is_running i.status)
      then return (none, Instance.is_stopping i.status)
      else database_time >>= retry_at r i

  abbrev pub hinted : ℕ → Db × Result Granted → Db × Result (Option RegisteredAttempt) × Option ℕ
  hinted id (db, err e) = (db, err e, none)
  hinted id (db, ok (a, check)) = (db, ok a, if check then some id else none)

  unfoldable pub retry_ordinary :
      RetryCandidate → Env → Db → Db × Result (Option RegisteredAttempt) × Option ℕ
  unfolding retry_found lock_for_execution transact
  retry_ordinary r env db =
      if r.task_id == 0 || r.instance_id == 0 || r.attempt_no == 0
      then (db, err invalid_argument, none)
      else hinted r.instance_id
          (transact (lock_for_execution r.instance_id >>= retry_found r) env db)
