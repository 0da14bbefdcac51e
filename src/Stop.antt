-- ===== src/Stop.antt =====
-- apps/job/internal/instancestop/controller.go: the stop decision and the cancellation batches of a
-- stopping Instance. The per-statement and per-call budgets of the source end a statement with an
-- error, which is a fault of the environment.
pub mod Request
pub mod Batch
pub mod Children
use Prim.Native.String.{String}
use dogx.Common.{
  ℕ, ◌==◌, ltb, leb, is_none, if◌then◌else◌, ◌&&◌, ◌||◌, not, Bool, true, false, Option, none, some,
  List, [], ◌∷◌, length, take, select, map,
}
use dogx.Common.Sort.{order}
use dogx.Model.{Time, is_zero, EndReason}
use dogx.Model.Task
use dogx.Model.Task.{JobTask}
use dogx.Model.Instance
use dogx.Model.Instance.{JobInstance, InstanceStatus}
use dogx.Database.{
  Fault, postgres, SqlState, Error, invalid_argument, instance_locked, instance_not_found,
  invalid_facts, driver, Result, Handle, in_transaction,
}
use dogx.InstanceStore.Writes.{record_stop, finish_stop, stop_target}
use dogx.TaskStore.Outcome.{TaskCancellation, cancel_unfinished}
use dogx.Transaction.{
  Db, Env, Tx, ◌>>=◌, return, fail, query, write_instances, write_tasks, database_time, transact,
}

pub record Decision : Type 0 where
  pub instance_id : ℕ
  pub executor_group_id : ℕ
  pub status : InstanceStatus
  pub end_reason : Option EndReason
  pub new : Bool

-- The row with the ID.
unfoldable pub find_instance : ℕ → List JobInstance → Option JobInstance
find_instance id [] = none
find_instance id (i ∷ is) = if i.id == id then some i else find_instance id is

abbrev pub lock_error : Bool → Fault → Error
lock_error true (postgres SqlState.lock_not_available) =
    instance_locked (postgres SqlState.lock_not_available)
lock_error _ f = driver f

-- job_instance_repository.go: LockForStop
unfoldable pub lock_for_stop : ℕ → Bool → Tx (Option JobInstance)
unfolding find_instance
lock_for_stop id nowait = query (lock_error nowait) (λ db. find_instance id db.instances)

unfoldable pub observed_decision : JobInstance → Decision
observed_decision i = record {
  instance_id = i.id;
  executor_group_id = i.executor_group_id;
  status = i.status;
  end_reason = i.end_reason;
  new = false;
}

abbrev pub is_set : Option Time → Bool
is_set none = false
is_set (some t) = not (is_zero t)

-- deadline.After(started)
abbrev pub is_after : Option Time → Option Time → Bool
is_after (some d) (some s) = ltb s d
is_after _ _ = false

unfoldable pub valid_active_times : JobInstance → Bool
valid_active_times i =
    is_none i.finished_at
    && (if Instance.is_waiting i.status
        then is_none i.started_at && is_none i.deadline_at
        else is_set i.started_at && is_after i.deadline_at i.started_at)

abbrev pub manual_stop_summary : String
manual_stop_summary = "Manual stop requested for this instance."

abbrev pub timeout_summary : String
timeout_summary = "Instance execution deadline reached."

-- The new decision; a lost transition under the lock is an invariant failure.
unfoldable pub recorded : JobInstance → EndReason → Bool → Tx Decision
recorded i reason false = fail invalid_facts
recorded i reason true = return (record {
  instance_id = i.id;
  executor_group_id = i.executor_group_id;
  status = InstanceStatus.stopping;
  end_reason = some reason;
  new = true;
})

unfoldable pub record_decision : JobInstance → EndReason → String → Time → Tx Decision
unfolding recorded
record_decision i reason summary now = do
  changed ←
      write_instances (λ fault _ db.
        record_stop in_transaction fault i.id i.status reason summary now db.instances)
  recorded i reason changed

-- The reason is chosen, and for a timeout the deadline compared with the time under the lock.
-- A missing deadline here would be a nil dereference.
unfoldable pub decide_reason : Bool → JobInstance → Time → Tx Decision
unfolding record_decision
decide_reason false i now = record_decision i EndReason.manual_stop manual_stop_summary now
decide_reason true i now = elim i.deadline_at [
  | none ↦ fail invalid_facts
  | some deadline ↦
      if ltb now deadline
      then return (observed_decision i)
      else record_decision i EndReason.instance_timeout timeout_summary now
]

unfoldable pub decide_at : Bool → JobInstance → Time → Tx Decision
unfolding decide_reason valid_active_times
decide_at timeout i now =
    if is_zero now || i.executor_group_id == 0 || not (valid_active_times i)
    then fail invalid_facts
    else decide_reason timeout i now

-- The part of requestStop that an active parent reaches.
unfoldable pub decide : Bool → JobInstance → Tx Decision
unfolding decide_at database_time
decide timeout i = do now ← database_time; decide_at timeout i now

-- The switch on the parent's status.
unfoldable pub decide_active : Bool → InstanceStatus → JobInstance → Tx Decision
unfolding decide
decide_active timeout InstanceStatus.waiting i =
    if timeout then return (observed_decision i) else decide timeout i
decide_active timeout InstanceStatus.running i = decide timeout i
decide_active timeout (InstanceStatus.unknown n) i = fail invalid_facts
decide_active timeout _ i = return (observed_decision i)

-- A missing row is ErrInstanceNotFound.
unfoldable pub request_stop_found : Bool → ℕ → Option JobInstance → Tx Decision
unfolding decide_active
request_stop_found timeout id none = fail instance_not_found
request_stop_found timeout id (some i) =
    if i.id == id then decide_active timeout i.status i else fail invalid_facts

unfoldable pub request_stop_body : Bool → ℕ → Tx Decision
unfolding request_stop_found lock_for_stop
request_stop_body timeout id = do
  found ← lock_for_stop id false
  request_stop_found timeout id found

-- RequestManual is `request_stop false`, RequestTimeout is `request_stop true`.
unfoldable pub request_stop : Bool → ℕ → Env → Db → Db × Result Decision
unfolding request_stop_body transact
request_stop timeout id env db =
    if id == 0
    then (db, Result.err invalid_argument)
    else transact (request_stop_body timeout id) env db
