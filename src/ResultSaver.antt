-- ===== src/ResultSaver.antt =====
-- apps/job/internal/taskresult/saver.go: one report of an executor, from the lookup of its Task to the
-- conditional write. JSON decoding, the tests of UTF-8 and of JSON and the parsing of a UUID belong to
-- the standard library and github.com/google/uuid, and are fields of `Formats`.
pub mod Ways
pub mod Saves
pub mod Answers
use Prim.Native.String.{String}
use dogx.Common.{
  ℕ, ◌+◌, ◌==◌, leb, ltb, is_some, is_none, if◌then◌else◌, ◌&&◌, ◌||◌, not, Bool, true, false,
  Option, none, some, List, [], ◌∷◌,
}
use dogx.Model.{Time, Signed, nonneg, neg, Snapshot}
use dogx.Model.Task.{JobTask, TaskStatus}
use dogx.Model.Task
use dogx.Model.Instance.{ExecutionMode}
use dogx.Database.{Fault, postgres, SqlState, Error, driver, expired, Result, ok, err, Reply, pool}
use dogx.Transaction.{Db}
use dogx.TaskStore.Outcome.{TaskResultWrite, save_result}
use dogx.TaskStore.Targets.{TaskResultTarget, find_result_target, check_result_data}
use dogx.Settler.{FrozenBudget}

pub data Outcome : Type 0 where
  success failure other : Outcome

-- `prepared_items` is whether the report has any, which is all that the code looks at.
pub record Report : Type 0 where
  pub group_id : ℕ
  pub job_id : ℕ
  pub instance_id : ℕ
  pub task_id : ℕ
  pub attempt_no : ℕ
  pub executor_instance_id : String
  pub outcome : Outcome
  pub summary : String
  pub contents : Option (List ℕ)
  pub prepared_items : Bool

pub data Reason : Type 0 where
  invalid_report missing_target ownership_mismatch stale_attempt task_closed executor_mismatch :
      Reason
  invalid_output no_match saved : Reason

pub record SaveResult : Type 0 where
  pub applied : Bool
  pub reason : Reason

-- ErrInvalidStoredState, ErrInvalidExecutionConfig, ErrUnsupportedTaskType, or an error of the
-- lookup, of the write, or of the write and the probe of the contents.
pub data SaveError : Type 0 where
  stored_state execution_config unsupported_type ended : SaveError
  lookup_failed write_failed : Error → SaveError
  probe_failed : Error → Error → SaveError

pub data Saved : Type 0 where
  released : SaveResult → Saved
  retained : SaveError → Saved

-- The canonical UUIDv4 of a text, the texts that may be stored, JSON, and the members of a snapshot;
-- `is_uuid4` is the version test of the write, `is_jsonb` PostgreSQL's own.
pub record Formats : Type 0 where
  pub uuid4 : String → Option ℕ
  pub is_uuid4 : ℕ → Bool
  pub valid_text : String → Bool
  pub valid_json : List ℕ → Bool
  pub unmarshal : Snapshot → Option FrozenBudget
  pub is_jsonb : List ℕ → Option Bool

-- What one call meets: the ends of its Context, failures, what others do before the write, the write's
-- reply and time, and the failure of the probe.
pub record SaveEnv : Type 0 where
  pub ended : Bool
  pub lookup : Option Fault
  pub others : Db → Db
  pub reply : Reply
  pub processed_at : Time
  pub ended_write : Bool
  pub probe : Option Fault

-- The tables, the answer and the hinted parent.
abbrev pub Answered : Type 0
Answered = Db × Saved × Option ℕ

abbrev pub finished : Db → ℕ → Bool → Reason → Answered
finished db id applied reason =
    (db, Saved.released (record { applied = applied; reason = reason }), some id)

abbrev pub discarded : Db → Reason → Answered
discarded db reason = (db, Saved.released (record { applied = false; reason = reason }), none)

abbrev pub kept : Db → SaveError → Answered
kept db e = (db, Saved.retained e, none)

abbrev pub is_ordinary_mode : ExecutionMode → Bool
is_ordinary_mode ExecutionMode.normal = true
is_ordinary_mode _ = false

abbrev pub write_of : Report → ℕ → TaskStatus → Option (List ℕ) → ℕ → TaskResultWrite
write_of r identity status contents interval = record {
  task_id = r.task_id;
  instance_id = r.instance_id;
  attempt_no = r.attempt_no;
  executor_instance_id = identity;
  status = status;
  data_ = contents;
  summary = r.summary;
  retry_interval_seconds = interval;
}

pub data Decided : Type 0 where
  write : TaskResultWrite → Decided
  refused : SaveError → Decided

-- A failure within its budget waits for a retry.
unfoldable pub failure_write : TaskResultTarget → Report → ℕ → FrozenBudget → Decided
failure_write t r identity b = elim b.max_retries [
  | none ↦ refused execution_config
  | some (neg n) ↦ refused execution_config
  | some (nonneg retries) ↦ elim b.retry_interval [
    | none ↦ refused execution_config
    | some interval ↦
        if interval == 0
        then refused execution_config
        else if t.used_attempts == 0
        then refused stored_state
        else if ltb t.used_attempts (retries + 1)
        then write (write_of r identity TaskStatus.retry_waiting none interval)
        else write (write_of r identity TaskStatus.failed none 0)
  ]
]

unfoldable pub outcome_write : Outcome → TaskResultTarget → Report → ℕ → FrozenBudget → Decided
unfolding failure_write
outcome_write Outcome.success t r identity b =
    write (write_of r identity TaskStatus.succeeded r.contents 0)
outcome_write _ t r identity b = failure_write t r identity b

unfoldable pub result_write :
    (Snapshot → Option FrozenBudget) → TaskResultTarget → Report → ℕ → Decided
unfolding outcome_write
result_write unmarshal t r identity = elim (unmarshal t.execution_config) [
  | none ↦ refused execution_config
  | some b ↦
      if not (b.schema_version == 1 && is_ordinary_mode b.execution_mode)
      then refused execution_config
      else outcome_write r.outcome t r identity b
]

abbrev pub is_success : Outcome → Bool
is_success Outcome.success = true
is_success _ = false

abbrev pub is_known : Outcome → Bool
is_known Outcome.other = false
is_known _ = true

abbrev pub is_data_exception : Error → Bool
is_data_exception (driver (postgres SqlState.data_exception)) = true
is_data_exception _ = false

abbrev pub valid_output : Formats → Report → Bool
valid_output f r =
    f.valid_text r.summary
    && not (
        is_success r.outcome
        && (r.prepared_items
            || elim r.contents [ none ↦ false | some text ↦ not (f.valid_json text) ]))

abbrev pub is_other : ℕ → Option ℕ → Bool
is_other identity none = false
is_other identity (some executor) = not (executor == identity)

abbrev pub owns : Report → TaskResultTarget → Bool
owns r t =
    t.task_id == r.task_id
    && t.instance_id == r.instance_id
    && t.job_id == r.job_id
    && t.executor_group_id == r.group_id

abbrev pub has_identities : Report → Bool
has_identities r =
    not (
      r.group_id == 0 || r.job_id == 0 || r.instance_id == 0 || r.task_id == 0 || r.attempt_no == 0)
    && is_known r.outcome

module _ (f : Formats) (env : SaveEnv) where
  -- After a failed write: whether the database takes the contents at all.
  unfoldable pub probed : Report → Error → Db → Answered
  probed r e db =
      if not env.ended_write && is_success r.outcome && is_some r.contents && is_data_exception e
      then elim (check_result_data f.is_jsonb r.contents env.probe) [
        | ok false ↦ discarded db invalid_output
        | ok true ↦ kept db (write_failed e)
        | err p ↦ kept db (probe_failed e p)
      ]
      else kept db (write_failed e)

  unfoldable pub write_answer : Report → ℕ → Db → List JobTask × Result Bool → Answered
  unfolding probed
  write_answer r id db (tasks, err e) = probed r e (record db { tasks = tasks })
  write_answer r id db (tasks, ok false) = finished (record db { tasks = tasks }) id false no_match
  write_answer r id db (tasks, ok true) = finished (record db { tasks = tasks }) id true saved

  unfoldable pub written : Report → ℕ → Db → Decided → Answered
  unfolding write_answer
  written r id db (refused e) = kept db e
  written r id db (write w) =
      let later = env.others db in
      write_answer r id later (save_result f.is_uuid4 pool env.reply env.processed_at w later.tasks)

  -- The switch on the status and what follows it.
  unfoldable pub save_running : Report → ℕ → Db → TaskResultTarget → TaskStatus → Answered
  unfolding written result_write
  save_running r identity db t TaskStatus.running =
      if is_other identity t.executor_instance_id
      then finished db t.instance_id false executor_mismatch
      else if not (Task.is_ordinary t.task_type)
      then kept db unsupported_type
      else if not (valid_output f r)
      then discarded db invalid_output
      else written r t.instance_id db (result_write f.unmarshal t r identity)
  save_running r identity db t (TaskStatus.unknown n) = kept db stored_state
  save_running r identity db t _ = finished db t.instance_id false task_closed

  unfoldable pub save_found : Report → ℕ → Db → TaskResultTarget → Answered
  unfolding save_running
  save_found r identity db t =
      if not (owns r t)
      then discarded db ownership_mismatch
      else if not (t.attempt_no == r.attempt_no)
      then finished db t.instance_id false stale_attempt
      else save_running r identity db t t.status

  unfoldable pub save_identified : Report → ℕ → Db → Answered
  unfolding save_found
  save_identified r identity db =
      elim (find_result_target r.task_id env.lookup db.instances db.tasks) [
        | err e ↦ kept db (lookup_failed e)
        | ok none ↦ discarded db missing_target
        | ok (some t) ↦ save_found r identity db t
      ]

  unfoldable pub save : Report → Db → Answered
  unfolding save_identified
  save r db =
      if env.ended
      then kept db ended
      else if not (has_identities r)
      then discarded db invalid_report
      else elim (f.uuid4 r.executor_instance_id) [
        | none ↦ discarded db invalid_report
        | some identity ↦ save_identified r identity db
      ]
