-- ===== src/Settler.antt =====
-- apps/job/internal/taskrecovery/settler.go: the settlement of attempts whose executor was never bound.
-- The answers of the clock and of FindUnboundTargets are the environment's, since the code reads them
-- through an interface and checks them itself. A settlement is the repository's own write, on the
-- table that other writers may have changed since the one before.
pub mod Turns
pub mod Processed
pub mod Eligible
pub mod Batch
pub mod Prefix
use dogx.Common.{
  ℕ, ◌+◌, ◌-◌, ◌*◌, ◌==◌, ltb, leb, is_some, if◌then◌else◌, ◌&&◌, ◌||◌, not, Bool, true, false,
  Option, none, some, List, [], ◌∷◌, length,
}
use dogx.Model.{Time, is_zero, second, Signed, nonneg, neg, Snapshot}
use dogx.Model.Task.{JobTask, TaskType, TaskStatus}
use dogx.Model.Task
use dogx.Model.Instance.{InstanceStatus, ExecutionMode}
use dogx.Database.{
  Error, driver, expired, invalid_argument, invalid_facts, invalid_config, Result, ok, err, Reply,
  pool,
}
use dogx.TaskStore.Outcome.{UnknownSettlement, SettledTask, settle_ordinary_unknown}
use dogx.Stop.{is_set, is_after}

abbrev pub max_batch_size : ℕ
max_batch_size = 16

pub record UnboundCandidate : Type 0 where
  pub task_id : ℕ
  pub instance_id : ℕ
  pub attempt_no : ℕ
  pub attempt_registered_at : Time

pub record UnboundTarget : Type 0 where
  pub task_id : ℕ
  pub instance_id : ℕ
  pub attempt_no : ℕ
  pub task_type : TaskType
  pub status : TaskStatus
  pub is_bound : Bool  -- ExecutorInstanceID != nil || ExecutorAddress != nil
  pub attempt_registered_at : Option Time
  pub instance_status : InstanceStatus
  pub started_at : Option Time
  pub deadline_at : Option Time
  pub execution_config : Snapshot

-- The members that json.Unmarshal finds; a required one that is null or no int32 is none.
pub record FrozenBudget : Type 0 where
  pub schema_version : ℕ
  pub execution_mode : ExecutionMode
  pub max_retries : Option Signed
  pub retry_interval : Option ℕ

-- What a candidate comes to: nothing to do, with or without a hint to its parent, or a write.
pub data Prepared : Type 0 where
  skip hint : Prepared
  write : UnknownSettlement → Prepared

abbrev pub checked_budget : Option Signed → Option ℕ → Result (Option (ℕ × Time))
checked_budget (some (nonneg retries)) (some interval) =
    if interval == 0 then err invalid_config else ok (some (retries + 1, interval * second))
checked_budget _ _ = err invalid_config

-- The attempts and the retry interval of an ordinary configuration, none for a sharded one.
abbrev pub mode_budget : ExecutionMode → FrozenBudget → Result (Option (ℕ × Time))
mode_budget ExecutionMode.sharded b = ok none
mode_budget ExecutionMode.normal b = checked_budget b.max_retries b.retry_interval
mode_budget _ b = err invalid_config

module _ (unmarshal : Snapshot → Option FrozenBudget) (period : Time) where
  unfoldable pub frozen_budget : Snapshot → Result (Option (ℕ × Time))
  frozen_budget snapshot = elim (unmarshal snapshot) [
    | none ↦ err invalid_config
    | some b ↦
        if not (b.schema_version == 1) then err invalid_config else mode_budget b.execution_mode b
  ]

  abbrev pub settlement : UnboundCandidate → Time → ℕ → Time → UnknownSettlement
  settlement c now max_attempts interval = record {
    task_id = c.task_id;
    instance_id = c.instance_id;
    expected_attempt_no = c.attempt_no;
    max_attempts = max_attempts;
    processed_at = now;
    observation_cutoff = now - period;
    retry_at = now + interval;
  }

  abbrev pub budgeted : UnboundCandidate → Time → Result (Option (ℕ × Time)) → Result Prepared
  budgeted c now (err e) = err e
  budgeted c now (ok none) = ok skip
  budgeted c now (ok (some (n, interval))) = ok (write (settlement c now n interval))

  -- The switch on the parent.
  unfoldable pub prepare_parent :
      UnboundCandidate → UnboundTarget → Time → InstanceStatus → Result Prepared
  unfolding frozen_budget
  prepare_parent c t now InstanceStatus.succeeded = ok skip
  prepare_parent c t now InstanceStatus.failed = ok skip
  prepare_parent c t now InstanceStatus.canceled = ok skip
  prepare_parent c t now InstanceStatus.stopping = ok hint
  prepare_parent c t now InstanceStatus.waiting = ok skip
  prepare_parent c t now InstanceStatus.running =
      if not (is_set t.started_at && is_after t.deadline_at t.started_at)
      then ok skip
      else elim t.deadline_at [
        | none ↦ ok skip
        | some deadline ↦
            if leb deadline now then ok hint else budgeted c now (frozen_budget t.execution_config)
      ]
  prepare_parent c t now (InstanceStatus.unknown n) = err invalid_facts

  -- The registration time, which must be set and not after the cutoff. A cutoff before the zero time
  -- is 0 here: a set time is after both.
  unfoldable pub prepare_observed : UnboundCandidate → UnboundTarget → Time → Result Prepared
  unfolding prepare_parent
  prepare_observed c t now = if t.is_bound then ok skip else elim t.attempt_registered_at [
    | none ↦ ok skip
    | some at ↦
        if is_zero at || ltb (now - period) at
        then ok skip
        else prepare_parent c t now t.instance_status
  ]

  unfoldable pub prepare_status :
      UnboundCandidate → UnboundTarget → Time → TaskStatus → Result Prepared
  unfolding prepare_observed
  prepare_status c t now TaskStatus.running = prepare_observed c t now
  prepare_status c t now (TaskStatus.unknown n) = err invalid_facts
  prepare_status c t now _ = ok skip

  unfoldable pub prepare_type : UnboundCandidate → UnboundTarget → Time → TaskType → Result Prepared
  unfolding prepare_status
  prepare_type c t now TaskType.ordinary = prepare_status c t now t.status
  prepare_type c t now (TaskType.unknown n) = err invalid_facts
  prepare_type c t now _ = ok skip

  unfoldable pub prepare : UnboundCandidate → UnboundTarget → Time → Result Prepared
  unfolding prepare_type
  prepare c t now =
      if not (t.instance_id == c.instance_id && t.attempt_no == c.attempt_no)
      then ok skip
      else prepare_type c t now t.task_type
