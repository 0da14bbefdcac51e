-- ===== src/Stop/Batch.antt =====
-- instancestop/controller.go: ProcessBatch, one cancellation batch of a stopping Instance.
use Prim.Native.String.{String}
use dogx.Common.{
  ℕ, ◌==◌, ltb, leb, is_none, if◌then◌else◌, ◌&&◌, ◌||◌, not, Bool, true, false, Option, none, some,
  List, [], ◌∷◌, length, take, select, map,
}
use dogx.Common.Sort.{order}
use dogx.Model.{Time, is_zero, EndReason}
use dogx.Model.Task
use dogx.Model.Task.{JobTask}
use dogx.Model.Instance.{JobInstance, InstanceStatus}
use dogx.Database.{invalid_argument, invalid_facts, driver, Result, in_transaction}
use dogx.InstanceStore.Writes.{finish_stop}
use dogx.TaskStore.Outcome.{TaskCancellation, cancel_unfinished}
use dogx.Transaction.{
  Db, Env, Tx, ◌>>=◌, return, fail, query, write_instances, write_tasks, database_time, transact,
}
use dogx.Stop.{lock_for_stop}

pub record BatchResult : Type 0 where
  pub instance_id : ℕ
  pub status : InstanceStatus
  pub canceled : ℕ
  pub more : Bool
  pub completed : Bool

-- stopOutcome
abbrev pub stop_outcome : Option EndReason → Option (InstanceStatus × EndReason × String)
stop_outcome (some EndReason.manual_stop) = some (
  InstanceStatus.canceled, EndReason.manual_stop,
  "Task canceled because its instance was manually stopped.",
)
stop_outcome (some EndReason.instance_timeout) = some (
  InstanceStatus.failed, EndReason.instance_timeout,
  "Task canceled because its instance timed out.",
)
stop_outcome _ = none

-- validOrderedIDs: at most `limit`, positive and strictly ascending.
unfoldable pub ascending : ℕ → List ℕ → Bool
ascending previous [] = true
ascending previous (id ∷ ids) = ltb previous id && ascending id ids

unfoldable pub valid_ordered_ids : List ℕ → ℕ → Bool
unfolding ascending
valid_ordered_ids ids limit = leb (length ids) limit && ascending 0 ids

abbrev pub is_unfinished_of : ℕ → JobTask → Bool
is_unfinished_of id t = t.instance_id == id && Task.is_unfinished t.status

abbrev pub task_id : JobTask → ℕ
task_id t = t.id

-- job_task_repository.go: ListUnfinishedIDs
unfoldable pub list_unfinished_ids : ℕ → ℕ → List JobTask → List ℕ
list_unfinished_ids instance_id limit tasks =
    take limit (order (map task_id (select (is_unfinished_of instance_id) tasks)))

unfoldable pub list_unfinished : ℕ → ℕ → Tx (List ℕ)
unfolding list_unfinished_ids
list_unfinished instance_id limit =
    if instance_id == 0 || limit == 0
    then fail invalid_argument
    else query driver (λ db. list_unfinished_ids instance_id limit db.tasks)

-- No child is left: the parent may end.
unfoldable pub finish_batch : JobInstance → InstanceStatus → EndReason → Tx BatchResult
finish_batch i target reason = do
  changed ←
      write_instances
        (λ fault now db. finish_stop in_transaction fault now i.id reason db.tasks db.instances)
  return (record {
    instance_id = i.id;
    status = if changed then target else i.status;
    canceled = 0;
    more = false;
    completed = changed;
  })

-- The row count of the cancellation.
unfoldable pub canceled_batch : JobInstance → List ℕ → ℕ → Tx BatchResult
canceled_batch i ids count =
    if leb count (length ids)
    then return (record {
      instance_id = i.id;
      status = i.status;
      canceled = count;
      more = true;
      completed = false;
    })
    else fail invalid_facts

abbrev pub cancellation : JobInstance → List ℕ → EndReason → String → Time → TaskCancellation
cancellation i ids reason summary now = record {
  instance_id = i.id;
  task_ids = ids;
  reason = reason;
  summary = summary;
  processed_at = now;
}

unfoldable pub cancel_at : JobInstance → List ℕ → EndReason → String → Time → Tx BatchResult
unfolding canceled_batch
cancel_at i ids reason summary now =
    if is_zero now
    then fail invalid_facts
    else write_tasks (λ fault _ db.
      cancel_unfinished in_transaction fault (cancellation i ids reason summary now) db.tasks)
      >>= canceled_batch i ids

unfoldable pub cancel_batch : JobInstance → List ℕ → EndReason → String → Tx BatchResult
unfolding cancel_at database_time
cancel_batch i ids reason summary = do now ← database_time; cancel_at i ids reason summary now

-- One batch of at most `limit` children, or the end of the parent.
unfoldable pub process_ids :
    JobInstance → InstanceStatus → EndReason → String → ℕ → List ℕ → Tx BatchResult
unfolding finish_batch cancel_batch valid_ordered_ids
process_ids i target reason summary limit ids =
    if not (valid_ordered_ids ids limit) then fail invalid_facts else elim ids [
      | [] ↦ finish_batch i target reason
      | id ∷ rest ↦ cancel_batch i (id ∷ rest) reason summary
    ]

unfoldable pub process_children :
    JobInstance → InstanceStatus → EndReason → String → ℕ → Tx BatchResult
unfolding process_ids list_unfinished
process_children i target reason summary limit = do
  ids ← list_unfinished i.id limit
  process_ids i target reason summary limit ids

unfoldable pub process_stopping : ℕ → JobInstance → Tx BatchResult
unfolding process_children
process_stopping limit i = elim (stop_outcome i.end_reason) [
  | none ↦ fail invalid_facts
  | some (target, reason, summary) ↦
      if is_none i.finished_at
      then process_children i target reason summary limit
      else fail invalid_facts
]

-- An observed parent that is not stopping; none for a missing one.
abbrev pub observed_batch : ℕ → InstanceStatus → BatchResult
observed_batch id status = record {
  instance_id = id;
  status = status;
  canceled = 0;
  more = false;
  completed = false;
}

unfoldable pub process_status : ℕ → InstanceStatus → JobInstance → Tx BatchResult
unfolding process_stopping
process_status limit InstanceStatus.stopping i = process_stopping limit i
process_status limit (InstanceStatus.unknown n) i = fail invalid_facts
process_status limit status i = return (observed_batch i.id status)

unfoldable pub process_found : ℕ → ℕ → Option JobInstance → Tx BatchResult
unfolding process_status
process_found limit id none = return (observed_batch 0 (InstanceStatus.unknown 0))
process_found limit id (some i) =
    if i.id == id then process_status limit i.status i else fail invalid_facts

unfoldable pub process_batch_body : ℕ → ℕ → Tx BatchResult
unfolding process_found lock_for_stop
process_batch_body limit id = do found ← lock_for_stop id true; process_found limit id found

-- ProcessBatch; a missing parent answers the zero BatchResult.
unfoldable pub process_batch : ℕ → ℕ → Env → Db → Db × Result BatchResult
unfolding process_batch_body transact
process_batch limit id env db =
    if id == 0
    then (db, Result.err invalid_argument)
    else transact (process_batch_body limit id) env db
