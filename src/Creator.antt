-- ===== src/Creator.antt =====
-- apps/job/internal/trigger/creator.go: the creation of rounds, by hand and by schedule, with the reads and
-- the write of apps/job/internal/repository/{job_definition,executor_group}_repository.go that it uses.
-- One call is one transaction; the row lock on the Job, which it takes first, keeps the other writers
-- of that Job's rounds out, so calls run one after another. JSON encoding, PostgreSQL's `->>` and the
-- text functions of the standard library are parameters.
pub mod Manual
pub mod Automatic
pub mod Answers
pub mod Replays
pub mod Repeats
pub mod Advances
use Prim.Native.String.{String}
use text.Mathlib.Text.{◌==◌ as str_eq}
use dogx.Common.{
  ℕ, ◌+◌, ◌-◌, ◌*◌, ◌==◌, leb, ltb, if◌then◌else◌, ◌&&◌, ◌||◌, not, Bool, true, false, Option, none,
  some, List, [], ◌∷◌, select,
}
use dogx.Model.{Time, second, Snapshot}
use dogx.Schedule.{Grammar}
use dogx.Model.Job.{JobDefinition}
use dogx.Model.Instance.{
  JobInstance, InstanceStatus, TriggerType, ExecutionMode, MisfirePolicy, BlockPolicy,
}
use dogx.Database.{
  Fault, Error, driver, job_not_found, invalid_facts, Result, ok, err, Reply, done, aborted,
  unconfirmed, update, affected, elem,
}
use dogx.InstanceStore.Listings.{
  ManualIdentity, find_manual, has_active, queried, exists, first_row,
}
use dogx.InstanceStore.Writes.{insert}

pub record Tables : Type 0 where
  pub jobs : List JobDefinition
  pub instances : List JobInstance
  pub groups : List ℕ  -- the executor groups that are not deleted

-- The errors of the package, of the context and the permits, and of the repositories.
pub data TriggerError : Type 0 where
  invalid_input blocked request_conflict capacity_busy indeterminate group_unavailable :
      TriggerError
  no_next_occurrence state_not_allowed ended : TriggerError
  repository : Error → TriggerError

pub data Answer (A : Type 0) : Type 0 where
  value : A → Answer A
  failed : TriggerError → Answer A

infixl 5 ◌>>=◌
abbrev pub ◌>>=◌ : {A B : Type 0} → Answer A → (A → Answer B) → Answer B
◌>>=◌ (failed e) f = failed e
◌>>=◌ (value a) f = f a

abbrev pub from_result : {A : Type 0} → Result A → Answer A
from_result (ok a) = value a
from_result (err e) = failed (repository e)

-- The statements of a transaction, each with its own failure.
pub data Statement : Type 0 where
  lock_job find_request check_group check_active insert_row find_again advance_job check_job :
      Statement

-- `slot` is the error of `acquire`; `next_id` the sequence, `database_now` the audit time, `now` the
-- process clock.
pub record TriggerEnv : Type 0 where
  pub slot : Option TriggerError
  pub fault : Statement → Option Fault
  pub next_id : ℕ
  pub database_now : Time
  pub now : Time
  pub commit : Reply

-- model.ExecutionConfig with the values of a Job.
pub record ExecutionSnapshot : Type 0 where
  pub schema_version : ℕ
  pub processor_name : String
  pub execution_mode : ExecutionMode
  pub post_enabled : Bool
  pub params : String
  pub max_retries : ℕ
  pub retry_interval_seconds : ℕ
  pub timeout_seconds : ℕ

abbrev pub snapshot_of : JobDefinition → ExecutionSnapshot
snapshot_of j = record {
  schema_version = 1;
  processor_name = j.processor_name;
  execution_mode = j.execution_mode;
  post_enabled = j.post_enabled;
  params = j.params;
  max_retries = j.max_retries;
  retry_interval_seconds = j.retry_interval_seconds;
  timeout_seconds = j.timeout_seconds;
}

-- job_definition_repository.go: Lock
unfoldable pub lock : Option Fault → ℕ → List JobDefinition → Answer JobDefinition
lock (some f) id jobs = failed (repository (driver f))
lock none id jobs = elim (first_row (select (λ j. j.id == id) jobs)) [
  | none ↦ failed (repository job_not_found)
  | some j ↦ if j.is_deleted then failed (repository job_not_found) else value j
]

-- job_definition_repository.go: Advance, with the check that follows a write without a row.
abbrev pub accepts_advance : ℕ → JobDefinition → Bool
accepts_advance id j = j.id == id && not j.is_deleted && j.is_enabled

abbrev pub advanced : Time → JobDefinition → JobDefinition
advanced next j = record j { next_trigger_at = some next }

-- checkWrite behind no row: the read tells a missing Job from a disabled one.
abbrev pub is_present : ℕ → JobDefinition → Bool
is_present id j = j.id == id && not j.is_deleted

unfoldable pub check_write : Option Fault → ℕ → List JobDefinition → TriggerError
check_write (some f) id jobs = repository (driver f)
check_write none id jobs =
    if exists (is_present id) jobs then state_not_allowed else repository job_not_found

unfoldable pub advance :
    Option Fault → Option Fault → ℕ → Time → List JobDefinition → Answer (List JobDefinition)
unfolding check_write
advance (some f) check id next jobs = failed (repository (driver f))
advance none check id next jobs =
    let n = affected (accepts_advance id) jobs in
    if n == 1
    then value (update (accepts_advance id) (advanced next) jobs)
    else if n == 0
    then failed (check_write check id jobs)
    else failed (repository invalid_facts)

-- executor_group_repository.go: Available
unfoldable pub available : Option Fault → ℕ → List ℕ → Answer Bool
available fault id groups = from_result (queried fault (elem id groups))

unfoldable pub available_group : Option Fault → ℕ → List ℕ → Answer Bool
unfolding available
available_group fault id groups = do
  found ← available fault id groups
  if found then value true else failed group_unavailable

-- A confirmed commit answers; an error rolls back.
unfoldable pub commit : {A : Type 0} → Reply → Tables → Answer (A × Tables) → Tables × Answer A
commit reply t (failed e) = (t, failed e)
commit done t (value (a, t')) = (t', value a)
commit (aborted f) t (value (a, t')) = (t, failed (repository (driver f)))
commit (unconfirmed f) t (value (a, t')) = (t', failed (repository (driver f)))

abbrev pub is_discarding : BlockPolicy → Bool
is_discarding BlockPolicy.discard = true
is_discarding BlockPolicy.parallel = false

-- HasActive, where the policy asks for it.
unfoldable pub active : TriggerEnv → JobDefinition → List JobInstance → Answer Bool
active env j rows =
    if is_discarding j.block_policy
    then from_result (has_active j.id (env.fault Statement.check_active) rows)
    else value false

-- snapshot(job); the insertion sets the execution columns.
abbrev pub snapshot :
    (ExecutionSnapshot → Snapshot) → JobDefinition → TriggerType → ExecutionSnapshot → JobInstance
snapshot encode j trigger config = record {
  id = 0;
  job_id = j.id;
  job_name = j.name;
  executor_group_id = j.executor_group_id;
  trigger_type = trigger;
  scheduled_at = none;
  request_id = none;
  params_overridden = false;
  triggered_by = none;
  execution_config = encode config;
  status = InstanceStatus.waiting;
  started_at = none;
  deadline_at = none;
  finished_at = none;
  end_reason = none;
  result_summary = none;
  created_at = 0;
  updated_at = 0;
}
