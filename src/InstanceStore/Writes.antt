-- ===== src/InstanceStore/Writes.antt =====
-- job_instance_repository.go: Insert, StartExecution, RecordStop, FinishStop and Complete. All but
-- Complete run in the caller's open transaction; `fault` says whether the statement fails.
use Prim.Native.String.{String}
use dogx.Common.{
  ℕ, ◌==◌, is_none, is_some, if◌then◌else◌, ◌&&◌, ◌||◌, not, Bool, true, false, Option, none, some,
  List, [], ◌∷◌,
}
use dogx.Model.{Time, is_zero, EndReason}
use dogx.Model.Task
use dogx.Model.Task.{JobTask}
use dogx.Model.Instance
use dogx.Model.Instance.{JobInstance, InstanceStatus, TriggerType}
use dogx.Database.{
  Fault, postgres, SqlState, invalid_argument, needs_transaction, needs_independent_commit, driver,
  Result, ok, err, Reply, Handle, pool, in_transaction, update, affected, commit_update, one_row,
}
use dogx.TaskStore.Outcome.{is_stop_reason}

-- One UPDATE of an open transaction that reports whether exactly one row was changed.
abbrev pub update_one :
    {A : Type 0} → Option Fault → (A → Bool) → (A → A) → List A → Result (Bool × List A)
update_one (some f) accepts change rows = err (driver f)
update_one none accepts change rows = ok (affected accepts rows == 1, update accepts change rows)

unfoldable pub accepts_start : ℕ → JobInstance → Bool
accepts_start id i =
    i.id == id
    && Instance.is_waiting i.status
    && is_none i.started_at
    && is_none i.deadline_at
    && is_none i.finished_at

unfoldable pub started : Time → Time → JobInstance → JobInstance
started started_at deadline_at i = record i {
  status = InstanceStatus.running;
  started_at = some started_at;
  deadline_at = some deadline_at;
  updated_at = started_at;
}

unfoldable pub start_execution :
    Option Fault → ℕ → Time → Time → List JobInstance → Result (Bool × List JobInstance)
start_execution fault id started_at deadline_at rows =
    update_one fault (accepts_start id) (started started_at deadline_at) rows

abbrev pub is_timeout : EndReason → Bool
is_timeout EndReason.instance_timeout = true
is_timeout _ = false

unfoldable pub accepts_stop : ℕ → InstanceStatus → JobInstance → Bool
accepts_stop id expected i =
    i.id == id
    && Instance.same_status i.status expected
    && (Instance.is_waiting i.status || Instance.is_running i.status)

unfoldable pub stop : EndReason → String → Time → JobInstance → JobInstance
stop reason summary decided_at i = record i {
  status = InstanceStatus.stopping;
  finished_at = none;
  end_reason = some reason;
  result_summary = some summary;
  updated_at = decided_at;
}

unfoldable pub valid_stop : ℕ → InstanceStatus → EndReason → Time → Bool
valid_stop id expected reason decided_at =
    not (id == 0)
    && not (is_zero decided_at)
    && (Instance.is_waiting expected || Instance.is_running expected)
    && is_stop_reason reason
    && not (is_timeout reason && not (Instance.is_running expected))

unfoldable pub record_stop :
    Handle
    → Option Fault
    → ℕ
    → InstanceStatus
    → EndReason
    → String
    → Time
    → List JobInstance
    → Result (Bool × List JobInstance)
record_stop handle fault id expected reason summary decided_at rows =
    if valid_stop id expected reason decided_at
    then elim handle [
      | pool ↦ err needs_transaction
      | in_transaction ↦
          update_one fault (accepts_stop id expected) (stop reason summary decided_at) rows
    ]
    else err invalid_argument

-- SELECT 1 FROM job_task WHERE instance_id = ? AND status IN (1, 2, 3)
unfoldable pub has_unfinished : ℕ → List JobTask → Bool
has_unfinished id [] = false
has_unfinished id (t ∷ ts) =
    t.instance_id == id && Task.is_unfinished t.status || has_unfinished id ts

abbrev pub same_reason : EndReason → EndReason → Bool
same_reason EndReason.manual_stop EndReason.manual_stop = true
same_reason EndReason.instance_timeout EndReason.instance_timeout = true
same_reason _ _ = false

abbrev pub reason_is : EndReason → Option EndReason → Bool
reason_is reason none = false
reason_is reason (some r) = same_reason r reason

unfoldable pub accepts_finish : ℕ → EndReason → List JobTask → JobInstance → Bool
accepts_finish id reason tasks i =
    i.id == id
    && Instance.is_stopping i.status
    && reason_is reason i.end_reason
    && not (has_unfinished i.id tasks)

-- manual_stop ends Canceled, instance_timeout ends Failed.
abbrev pub stop_target : EndReason → InstanceStatus
stop_target reason = if is_timeout reason then InstanceStatus.failed else InstanceStatus.canceled

unfoldable pub finished : InstanceStatus → Time → JobInstance → JobInstance
finished target now i = record i { status = target; finished_at = some now; updated_at = now }

unfoldable pub finish_stop :
    Handle
    → Option Fault
    → Time
    → ℕ
    → EndReason
    → List JobTask
    → List JobInstance
    → Result (Bool × List JobInstance)
finish_stop handle fault now id reason tasks rows =
    if id == 0 || not (is_stop_reason reason) then err invalid_argument else elim handle [
      | pool ↦ err needs_transaction
      | in_transaction ↦
          update_one fault (accepts_finish id reason tasks) (finished (stop_target reason) now) rows
    ]

unfoldable pub accepts_completion : ℕ → JobInstance → Bool
accepts_completion id i = i.id == id && Instance.is_running i.status

unfoldable pub completed : InstanceStatus → Option String → Time → JobInstance → JobInstance
completed target summary now i = record i {
  status = target;
  end_reason =
      some (elim target [
        | InstanceStatus.failed ↦ EndReason.execution_failed
        | _ ↦ EndReason.success
      ]);
  result_summary = summary;
  finished_at = some now;
  updated_at = now;
}

abbrev pub is_completion : InstanceStatus → Bool
is_completion InstanceStatus.succeeded = true
is_completion InstanceStatus.failed = true
is_completion _ = false

-- The method opens its own transaction, so its error may hide a commit.
unfoldable pub complete :
    Handle
    → Reply
    → Time
    → ℕ
    → InstanceStatus
    → Option String
    → List JobInstance
    → List JobInstance × Result Bool
complete handle reply now id target summary rows =
    if id == 0 || not (is_completion target) then (rows, err invalid_argument) else elim handle [
      | in_transaction ↦ (rows, err needs_independent_commit)
      | pool ↦
          one_row driver
            (commit_update reply (accepts_completion id) (completed target summary now) rows)
    ]

-- ck_job_instance_trigger_identity
unfoldable pub valid_identity : JobInstance → Bool
valid_identity i = elim i.trigger_type [
  | TriggerType.manual ↦ is_none i.scheduled_at && is_some i.request_id && is_some i.triggered_by
  | _ ↦
      is_some i.scheduled_at
      && is_none i.request_id
      && not i.params_overridden
      && is_none i.triggered_by
]

-- The partial unique indexes on (job_id, request_id) and (job_id, scheduled_at).
abbrev pub equal_some : Option ℕ → Option ℕ → Bool
equal_some (some a) (some b) = a == b
equal_some _ _ = false

unfoldable pub same_identity : JobInstance → JobInstance → Bool
same_identity i j = i.job_id == j.job_id && elim i.trigger_type [
  | TriggerType.manual ↦ equal_some i.request_id j.request_id
  | _ ↦ equal_some i.scheduled_at j.scheduled_at
]

unfoldable pub conflicts : JobInstance → List JobInstance → Bool
conflicts i [] = false
conflicts i (j ∷ js) = same_identity i j || conflicts i js

-- Only the trigger snapshot is stored: the ID is the sequence's, the status is waiting, the
-- execution columns are NULL and the audit times are the database's.
unfoldable pub snapshot_row : ℕ → Time → JobInstance → JobInstance
snapshot_row next_id now i = record i {
  id = next_id;
  status = InstanceStatus.waiting;
  started_at = none;
  deadline_at = none;
  finished_at = none;
  end_reason = none;
  result_summary = none;
  created_at = now;
  updated_at = now;
}

-- The new ID and whether a row was inserted, with the table.
unfoldable pub insert :
    Option Fault
    → ℕ
    → Time
    → JobInstance
    → List JobInstance
    → Result ((ℕ × Bool) × List JobInstance)
insert (some f) next_id now i rows = err (driver f)
insert none next_id now i rows =
    if not (valid_identity i)
    then err (driver (postgres SqlState.integrity_violation))
    else if conflicts i rows
    then ok ((0, false), rows)
    else ok ((next_id, true), snapshot_row next_id now i ∷ rows)
