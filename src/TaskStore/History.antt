-- ===== src/TaskStore/History.antt =====
-- Any sequence of the writes of job_task_repository.go, by any number of nodes, with any failures.
use Prim.Native.String.{String}
use dogx.Common.{ℕ, ◌≡◌, ◌==◌, Bool, true, false, Option, List, [], ◌∷◌}
use dogx.Model.{Time}
use dogx.Model.Task.{JobTask}
use dogx.Database.{Fault, Result, ok, err, Reply, Handle, update}
use dogx.TaskStore.Dispatch.{
  ExecutorBinding, bind_executor, accepts_binding, bound, DispatchBusyWrite, DispatchRejectionWrite,
  accepts_refusal, busy, save_dispatch_busy, rejected, save_dispatch_rejection,
}
use dogx.TaskStore.Start.{
  RetryRegistration, accepts_registration, registered, register_ordinary_retry, insert_ordinary,
  new_ordinary,
}
use dogx.TaskStore.Outcome.{
  TaskResultWrite, accepts_result, resulted, save_result, UnknownSettlement, accepts_settlement,
  settled, settle_ordinary_unknown, valid_result_status, TaskCancellation, accepts_cancellation,
  cancelled, cancel_unfinished,
}

-- One call with all that the environment decides for it.
pub data Write : Type 0 where
  insert : Option Fault → ℕ → ℕ → Time → Write
  register : Handle → Option Fault → RetryRegistration → Write
  bind : Reply → Time → ExecutorBinding → Write
  busy_reply : Handle → Reply → Time → DispatchBusyWrite → Write
  rejection : Handle → Reply → Time → DispatchRejectionWrite → Write
  result : Handle → Reply → Time → TaskResultWrite → Write
  settle : Handle → Reply → UnknownSettlement → Write
  cancel : Handle → Option Fault → TaskCancellation → Write

-- A refused call inside a transaction leaves the table as it was.
abbrev pub or_else : {A : Type 0} → List JobTask → Result (A × List JobTask) → List JobTask
or_else rows (ok (_, rows')) = rows'
or_else rows (err _) = rows

module _ (is_uuid4 : ℕ → Bool) (valid_address : String → Bool) (interval : ℕ → ℕ) where
  unfoldable pub apply : Write → List JobTask → List JobTask
  apply (insert fault next instance at) rows =
      or_else rows (insert_ordinary fault next instance at rows)
  apply (register handle fault w) rows = or_else rows (register_ordinary_retry handle fault w rows)
  apply (bind reply now b) rows = (bind_executor is_uuid4 valid_address reply now b rows).0
  apply (busy_reply handle reply now w) rows =
      (save_dispatch_busy interval handle reply now w rows).0
  apply (rejection handle reply now w) rows = (save_dispatch_rejection handle reply now w rows).0
  apply (result handle reply now w) rows = (save_result is_uuid4 handle reply now w rows).0
  apply (settle handle reply w) rows = (settle_ordinary_unknown handle reply w rows).0
  apply (cancel handle fault w) rows = or_else rows (cancel_unfinished handle fault w rows)

  unfoldable pub run : List Write → List JobTask → List JobTask
  run [] rows = rows
  run (w ∷ ws) rows = run ws (apply w rows)

-- The change of one accepted row.
pub data RowChange (t : JobTask) : JobTask → Type 0 where
  binding :
      (b : ExecutorBinding) (now : Time) → accepts_binding b t ≡ true → RowChange t (bound b now t)
  refused :
      (interval : ℕ → ℕ) (w : DispatchBusyWrite) (now : Time)
      → accepts_refusal w.task_id w.instance_id w.attempt_no t ≡ true
      → RowChange t (busy interval w now t)
  turned_down :
      (w : DispatchRejectionWrite) (total : ℕ) (now : Time)
      → accepts_refusal w.task_id w.instance_id w.attempt_no t ≡ true
      → RowChange t (rejected w total now t)
  retried : (w : RetryRegistration) → accepts_registration w t ≡ true → RowChange t (registered w t)
  reported :
      (w : TaskResultWrite) (now : Time)
      → valid_result_status w.status w.retry_interval_seconds ≡ true
      → accepts_result w t ≡ true
      → RowChange t (resulted w now t)
  unknown : (w : UnknownSettlement) → accepts_settlement w t ≡ true → RowChange t (settled w t)
  stopped : (w : TaskCancellation) → accepts_cancellation w t ≡ true → RowChange t (cancelled w t)

-- The IDs that a call may insert.
abbrev pub inserts : Write → ℕ → Bool
inserts (insert fault next instance at) id = id == next
inserts _ id = false

-- What a call leaves: the table as it was, with a first attempt added, or with one UPDATE made.
pub data Effect (ids : ℕ → Bool) (rows : List JobTask) (rows' : List JobTask) : Type 0 where
  nothing : rows' ≡ rows → Effect ids rows rows'
  inserted :
      (next instance : ℕ) (at : Time)
      → ids next ≡ true
      → rows' ≡ new_ordinary next instance at ∷ rows
      → Effect ids rows rows'
  updated :
      (accepts : JobTask → Bool) (change : JobTask → JobTask)
      → ((t : JobTask) → accepts t ≡ true → RowChange t (change t))
      → rows' ≡ update accepts change rows
      → Effect ids rows rows'
