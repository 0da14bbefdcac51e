-- ===== src/StopQueue/Quiet.antt =====
-- instancestop/controller.go: ProcessBatch over a database that answers.
use Prim.Native.String.{String}
use dogx.Common.{
  ℕ, ◌≤◌, ◌<◌, ◌≡◌, refl, ◌∙◌, ap, ◌==◌, ==_refl, true, false, none, some, List, [], ◌∷◌, length,
  arith, if◌then◌else◌,
}
use dogx.Model.{is_zero, EndReason}
use dogx.Model.Instance.{JobInstance, InstanceStatus}
use dogx.Database.{ok, done, update, affected, elem}
use dogx.InstanceStore.Writes.{finish_stop, finished, accepts_finish, stop_target}
use dogx.TaskStore.Outcome.{
  TaskCancellation, is_stop_reason, accepts_cancellation, cancelled, valid_cancellation,
  cancel_unfinished,
}
use dogx.Transaction.{Db, Env, transact, commit_with, database_time}
use dogx.Stop.{find_instance, lock_for_stop}
use dogx.Stop.Batch.{
  stop_outcome, list_unfinished_ids, list_unfinished, valid_ordered_ids, finish_batch,
  canceled_batch, cancellation, cancel_at, cancel_batch, process_ids, process_children,
  process_stopping, process_status, process_found, process_batch_body, process_batch,
}

-- Statements do not fail, the clock runs, and the commit is confirmed.
pub record IsQuiet (env : Env) : Type 0 where
  pub works : (n : ℕ) → env.fault n ≡ none
  pub runs : (n : ℕ) → is_zero (env.clock n) ≡ false
  pub commits : env.commit ≡ done

-- The row of an Instance that was stopped for `reason` and has not ended.
pub record IsStopped (i : JobInstance) (reason : EndReason) : Type 0 where
  pub positive : (i.id == 0) ≡ false
  pub stopping : i.status ≡ InstanceStatus.stopping
  pub reasoned : i.end_reason ≡ some reason
  pub stop_reason : is_stop_reason reason ≡ true
  pub unfinished_yet : i.finished_at ≡ none

pub outcome_of :
    (reason : EndReason)
    → is_stop_reason reason ≡ true
    → (summary : String) × (stop_outcome (some reason) ≡ some (stop_target reason, reason, summary))
outcome_of EndReason.manual_stop h =
    ("Task canceled because its instance was manually stopped.", refl)
outcome_of EndReason.instance_timeout h = ("Task canceled because its instance timed out.", refl)
outcome_of EndReason.success h = cc
outcome_of EndReason.execution_failed h = cc
outcome_of EndReason.dispatch_rejected h = cc
outcome_of EndReason.result_unknown h = cc
outcome_of (EndReason.other t) h = cc

module _ (limit : ℕ) (env : Env) (db : Db) (i : JobInstance) (reason : EndReason)
    (some_limit : 0 < limit) (q : IsQuiet env) (s : IsStopped i reason) where
  children_ids :
      (summary : String) (target : InstanceStatus)
      → process_children i target reason summary limit env 1 db
        ≡ process_ids i target reason summary limit
            (list_unfinished_ids i.id limit db.tasks)
            env
            2
            db
  unfolding process_children list_unfinished
  children_ids summary target = ground (arith, q.works 1, s.positive)

  stopping_ids :
      (summary : String)
      → stop_outcome (some reason) ≡ some (stop_target reason, reason, summary)
      → process_stopping limit i env 1 db
        ≡ process_ids i
            (stop_target reason)
            reason
            summary
            limit
            (list_unfinished_ids i.id limit db.tasks)
            env
            2
            db
  unfolding process_stopping
  stopping_ids summary o = ground (
    arith,
    ap stop_outcome s.reasoned ∙ o,
    s.unfinished_yet,
    children_ids summary (stop_target reason),
  )

  -- The batch's transaction up to the selection of its children.
  pub batch_ids :
      (summary : String)
      → stop_outcome (some reason) ≡ some (stop_target reason, reason, summary)
      → find_instance i.id db.instances ≡ some i
      → process_batch limit i.id env db
        ≡ commit_with done db (
            process_ids i
              (stop_target reason)
              reason
              summary
              limit
              (list_unfinished_ids i.id limit db.tasks)
              env
              2
              db)
  unfolding process_batch process_batch_body process_found process_status lock_for_stop transact
  batch_ids summary o f =
      ground (
        arith,
        s.positive,
        q.works 0,
        q.commits,
        f,
        ==_refl i.id,
        s.stopping,
        stopping_ids summary o,
      )

  -- No child is left: the parent's update.
  pub finish_ids :
      (summary : String)
      → process_ids i (stop_target reason) reason summary limit [] env 2 db
        ≡ ok (
          record {
            instance_id = i.id;
            status =
                if affected (accepts_finish i.id reason db.tasks) db.instances == 1
                then stop_target reason
                else i.status;
            canceled = 0;
            more = false;
            completed = affected (accepts_finish i.id reason db.tasks) db.instances == 1;
          },
          3,
          record db {
            instances =
                update
                  (accepts_finish i.id reason db.tasks)
                  (finished (stop_target reason) (env.clock 2))
                  db.instances;
          },
        )
  unfolding process_ids finish_batch finish_stop valid_ordered_ids
  finish_ids summary = ground (arith, q.works 2, s.positive, s.stop_reason)

  abbrev pub write_of : String → List ℕ → TaskCancellation
  write_of summary ids = cancellation i ids reason summary (env.clock 2)

  -- The selected children are cancelled.
  pub cancel_ids :
      (summary : String) (x : ℕ) (xs : List ℕ)
      → valid_ordered_ids (x ∷ xs) limit ≡ true
      → elem 0 (x ∷ xs) ≡ false
      → affected (accepts_cancellation (write_of summary (x ∷ xs))) db.tasks ≤ length (x ∷ xs)
      → process_ids i (stop_target reason) reason summary limit (x ∷ xs) env 2 db
        ≡ ok (
          record {
            instance_id = i.id;
            status = i.status;
            canceled = affected (accepts_cancellation (write_of summary (x ∷ xs))) db.tasks;
            more = true;
            completed = false;
          },
          4,
          record db {
            tasks =
                update
                  (accepts_cancellation (write_of summary (x ∷ xs)))
                  (cancelled (write_of summary (x ∷ xs)))
                  db.tasks;
          },
        )
  unfolding process_ids cancel_batch cancel_at canceled_batch cancel_unfinished valid_cancellation
      database_time
  cancel_ids summary x xs v e b =
      ground (arith, q.works 2, q.works 3, q.runs 2, s.positive, s.stop_reason)
