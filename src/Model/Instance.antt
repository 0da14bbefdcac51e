-- ===== src/Model/Instance.antt =====
-- apps/job/internal/model/{job_instance,job_definition}.go: one round, its status and its policies.
use Prim.Native.String.{String}
use dogx.Common.{◌==◌, ◌+◌, ℕ, ◌||◌, Bool, true, false, Option}
use dogx.Model.{Time, EndReason, Snapshot}

pub data InstanceStatus : Type 0 where
  waiting running succeeded failed canceled stopping : InstanceStatus
  unknown : ℕ → InstanceStatus

pub data TriggerType : Type 0 where
  scheduled misfire manual : TriggerType

pub data ExecutionMode : Type 0 where
  normal sharded : ExecutionMode
  unknown : ℕ → ExecutionMode

pub data MisfirePolicy : Type 0 where
  ignore once : MisfirePolicy

pub data BlockPolicy : Type 0 where
  discard parallel : BlockPolicy

pub record JobInstance : Type 0 where
  pub id : ℕ
  pub job_id : ℕ
  pub job_name : String
  pub executor_group_id : ℕ
  pub trigger_type : TriggerType
  pub scheduled_at : Option Time
  pub request_id : Option ℕ
  pub params_overridden : Bool
  pub triggered_by : Option ℕ
  pub execution_config : Snapshot
  pub status : InstanceStatus
  pub started_at : Option Time
  pub deadline_at : Option Time
  pub finished_at : Option Time
  pub end_reason : Option EndReason
  pub result_summary : Option String
  pub created_at : Time
  pub updated_at : Time

abbrev pub is_waiting : InstanceStatus → Bool
is_waiting InstanceStatus.waiting = true
is_waiting _ = false

abbrev pub is_running : InstanceStatus → Bool
is_running InstanceStatus.running = true
is_running _ = false

abbrev pub is_stopping : InstanceStatus → Bool
is_stopping InstanceStatus.stopping = true
is_stopping _ = false

abbrev pub is_terminal : InstanceStatus → Bool
is_terminal InstanceStatus.succeeded = true
is_terminal InstanceStatus.failed = true
is_terminal InstanceStatus.canceled = true
is_terminal _ = false

-- status IN (1, 2, 6)
abbrev pub is_active : InstanceStatus → Bool
is_active s = is_waiting s || is_running s || is_stopping s

-- Equality of two status columns; the unnamed values are numbered from 7 on.
abbrev pub code : InstanceStatus → ℕ
code InstanceStatus.waiting = 1
code InstanceStatus.running = 2
code InstanceStatus.succeeded = 3
code InstanceStatus.failed = 4
code InstanceStatus.canceled = 5
code InstanceStatus.stopping = 6
code (InstanceStatus.unknown n) = n + 7

abbrev pub same_status : InstanceStatus → InstanceStatus → Bool
same_status s t = code s == code t
