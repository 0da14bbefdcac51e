-- ===== src/Checker.antt =====
-- apps/job/internal/instancecheck/checker.go: Check, over the repository's Complete and the stop
-- controller's RequestTimeout. The read of the facts goes through an interface, so its answer is the
-- environment's, as is what other writers do between the calls. Callbacks are the events of the answer.
pub mod Configs
pub mod Facts
pub mod Ends
use Prim.Native.String.{String}
use dogx.Common.{
  ℕ, ◌==◌, ltb, is_none, if◌then◌else◌, ◌&&◌, ◌||◌, not, Bool, true, false, Option, none, some,
  List, [], ◌∷◌,
}
use dogx.Model.{Time, is_zero, EndReason, Snapshot}
use dogx.Model.Task.{TaskStatus}
use dogx.Model.Instance
use dogx.Model.Instance.{InstanceStatus, ExecutionMode}
use dogx.Database.{
  Error, invalid_argument, invalid_facts, invalid_config, driver, expired, Result, ok, err, Reply,
  pool,
}
use dogx.InstanceStore.Writes.{complete, is_timeout}
use dogx.Transaction.{Db, Env}
use dogx.Stop.{Decision, request_stop, is_set}

pub data Outcome : Type 0 where
  skipped not_ready stopping not_applied terminal : Outcome

-- repository.InstanceCompletion
pub record InstanceCompletion : Type 0 where
  pub id : ℕ
  pub status : InstanceStatus
  pub deadline_at : Option Time
  pub execution_config : Snapshot
  pub task_id : Option ℕ
  pub task_status : Option TaskStatus
  pub result_summary : Option String

pub record CheckConfig : Type 0 where
  pub schema_version : Option ℕ
  pub execution_mode : Option ExecutionMode
  pub post_enabled : Option Bool

-- resume(id) and afterStop(decision)
pub data Event : Type 0 where
  resumed : ℕ → Event
  stop_decided : Decision → Event

pub record CheckEnv : Type 0 where
  pub ended : Bool  -- ctx.Err() before the read
  pub facts : Result (Option InstanceCompletion)
  pub ended_late : Bool  -- ctx.Err() before or after the clock's answer
  pub clock : Result Time
  pub others : Db → Db
  pub reply : Reply
  pub completed_at : Time
  pub timeout : Env

-- The tables after the call, its answer, and the callbacks that it made.
abbrev pub Checked : Type 0
Checked = Db × Result Outcome × List Event

-- What the settings ask for: nothing, or the progress of an ordinary round.
unfoldable pub check_config : Option CheckConfig → Result Bool
check_config none = err invalid_config
check_config (some c) = elim c.schema_version [
  | none ↦ err invalid_config
  | some v ↦ if not (v == 1) then err invalid_config else elim c.execution_mode [
    | some ExecutionMode.sharded ↦ ok false
    | some ExecutionMode.normal ↦ elim c.post_enabled [
      | some false ↦ ok true
      | _ ↦ err invalid_config
    ]
    | _ ↦ err invalid_config
  ]
]

abbrev pub resume_events : Bool → ℕ → List Event
resume_events true id = resumed id ∷ []
resume_events false id = []

abbrev pub is_timeout_reason : Option EndReason → Bool
is_timeout_reason none = false
is_timeout_reason (some r) = is_timeout r

-- A new decision must be the timeout's.
unfoldable pub valid_decision : ℕ → Decision → Bool
valid_decision id d =
    d.instance_id == id
    && not (
        d.new
        && not (
            Instance.is_stopping d.status
            && not (d.executor_group_id == 0)
            && is_timeout_reason d.end_reason))

unfoldable pub decision_outcome : ℕ → Decision → InstanceStatus → Result Outcome × List Event
decision_outcome id d InstanceStatus.stopping =
    (ok stopping, if d.new then stop_decided d ∷ [] else resumed id ∷ [])
decision_outcome id d InstanceStatus.succeeded = (ok terminal, [])
decision_outcome id d InstanceStatus.failed = (ok terminal, [])
decision_outcome id d InstanceStatus.canceled = (ok terminal, [])
decision_outcome id d InstanceStatus.waiting = (ok skipped, [])
decision_outcome id d InstanceStatus.running = (ok not_ready, [])
decision_outcome id d (InstanceStatus.unknown n) = (err invalid_facts, [])

unfoldable pub timeout_answer : ℕ → Db × Result Decision → Checked
unfolding decision_outcome valid_decision
timeout_answer id (db, err e) = (db, err e, [])
timeout_answer id (db, ok d) =
    let o = decision_outcome id d d.status in
    if valid_decision id d then (db, o.0, o.1) else (db, err invalid_facts, [])

-- notReady
unfoldable pub timed : CheckEnv → InstanceCompletion → Db → Time → Time → Checked
unfolding timeout_answer
timed env f db deadline now =
    if is_zero now
    then (db, err invalid_facts, [])
    else if ltb now deadline
    then (db, ok not_ready, [])
    else timeout_answer f.id (request_stop true f.id env.timeout (env.others db))

unfoldable pub not_ready_yet : Bool → CheckEnv → InstanceCompletion → Db → Checked
unfolding timed
not_ready_yet false env f db = (db, ok not_ready, [])
not_ready_yet true env f db = elim f.deadline_at [
  | none ↦ (db, err invalid_facts, [])
  | some deadline ↦
      if is_zero deadline
      then (db, err invalid_facts, [])
      else if env.ended_late
      then (db, err (driver expired), [])
      else elim env.clock [ err e ↦ (db, err e, []) | ok now ↦ timed env f db deadline now ]
]

abbrev pub completion_answer : Db → List Instance.JobInstance × Result Bool → Checked
completion_answer db (rows, err e) = (record db { instances = rows }, err e, [])
completion_answer db (rows, ok true) = (record db { instances = rows }, ok terminal, [])
completion_answer db (rows, ok false) = (record db { instances = rows }, ok not_applied, [])

unfoldable pub completed_with : CheckEnv → InstanceCompletion → InstanceStatus → Db → Checked
completed_with env f target db =
    let d = env.others db in
    completion_answer d
      (complete pool env.reply env.completed_at f.id target f.result_summary d.instances)

-- The switch on the Task's status.
unfoldable pub check_task : Bool → CheckEnv → InstanceCompletion → TaskStatus → Db → Checked
unfolding not_ready_yet completed_with
check_task with_stop env f TaskStatus.waiting db = not_ready_yet with_stop env f db
check_task with_stop env f TaskStatus.running db = not_ready_yet with_stop env f db
check_task with_stop env f TaskStatus.retry_waiting db = not_ready_yet with_stop env f db
check_task with_stop env f TaskStatus.canceled db = not_ready_yet with_stop env f db
check_task with_stop env f TaskStatus.succeeded db =
    completed_with env f InstanceStatus.succeeded db
check_task with_stop env f TaskStatus.failed db = completed_with env f InstanceStatus.failed db
check_task with_stop env f (TaskStatus.unknown n) db = (db, err invalid_facts, [])

unfoldable pub check_ordinary : Bool → CheckEnv → InstanceCompletion → Db → Checked
unfolding check_task
check_ordinary with_stop env f db = elim f.task_id [
  | none ↦ not_ready_yet with_stop env f db
  | some task ↦ elim f.task_status [
    | none ↦ (db, err invalid_facts, [])
    | some s ↦ if task == 0 then (db, err invalid_facts, []) else check_task with_stop env f s db
  ]
]

module _ (unmarshal : Snapshot → Option CheckConfig) where
  abbrev pub check_decoded : Bool → CheckEnv → InstanceCompletion → Db → Result Bool → Checked
  check_decoded with_stop env f db (err e) = (db, err e, [])
  check_decoded with_stop env f db (ok false) = (db, ok skipped, [])
  check_decoded with_stop env f db (ok true) = check_ordinary with_stop env f db

  -- The switch on the parent's status.
  unfoldable pub check_parent : Bool → CheckEnv → InstanceCompletion → InstanceStatus → Db → Checked
  unfolding check_config check_ordinary
  check_parent with_stop env f InstanceStatus.succeeded db = (db, ok terminal, [])
  check_parent with_stop env f InstanceStatus.failed db = (db, ok terminal, [])
  check_parent with_stop env f InstanceStatus.canceled db = (db, ok terminal, [])
  check_parent with_stop env f InstanceStatus.waiting db = (db, ok skipped, [])
  check_parent with_stop env f InstanceStatus.stopping db =
      (db, ok stopping, resume_events with_stop f.id)
  check_parent with_stop env f InstanceStatus.running db =
      check_decoded with_stop env f db (check_config (unmarshal f.execution_config))
  check_parent with_stop env f (InstanceStatus.unknown n) db = (db, err invalid_facts, [])

  -- Check, with or without WithStopping.
  unfoldable pub check : Bool → CheckEnv → ℕ → Db → Checked
  unfolding check_parent
  check with_stop env id db =
      if id == 0
      then (db, err invalid_argument, [])
      else if env.ended
      then (db, err (driver expired), [])
      else elim env.facts [
        | err e ↦ (db, err e, [])
        | ok none ↦ (db, ok skipped, [])
        | ok (some f) ↦
            if not (f.id == id)
            then (db, err invalid_facts, [])
            else check_parent with_stop env f f.status db
      ]
