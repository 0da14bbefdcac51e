-- ===== src/Model/Task.antt =====
-- apps/job/internal/model/job_task.go: one Task row, its type and its status.
use Prim.Native.String.{String}
use dogx.Common.{ℕ, Bool, true, false, Option, List}
use dogx.Model.{Time, EndReason}

pub data TaskType : Type 0 where
  ordinary prepare shard post : TaskType
  unknown : ℕ → TaskType

pub data TaskStatus : Type 0 where
  waiting running retry_waiting succeeded failed canceled : TaskStatus
  unknown : ℕ → TaskStatus

pub record JobTask : Type 0 where
  pub id : ℕ
  pub instance_id : ℕ
  pub task_type : TaskType
  pub status : TaskStatus
  pub attempt_no : ℕ
  pub used_attempts : ℕ
  pub attempt_registered_at : Option Time
  pub next_dispatch_at : Option Time
  pub executor_instance_id : Option ℕ
  pub executor_address : Option String
  pub result_data : Option (List ℕ)
  pub result_summary : Option String
  pub end_reason : Option EndReason
  pub started_at : Option Time
  pub finished_at : Option Time
  pub created_at : Time
  pub updated_at : Time

abbrev pub is_ordinary : TaskType → Bool
is_ordinary TaskType.ordinary = true
is_ordinary _ = false

abbrev pub is_running : TaskStatus → Bool
is_running TaskStatus.running = true
is_running _ = false

abbrev pub is_retry_waiting : TaskStatus → Bool
is_retry_waiting TaskStatus.retry_waiting = true
is_retry_waiting _ = false

abbrev pub is_failed : TaskStatus → Bool
is_failed TaskStatus.failed = true
is_failed _ = false

-- status IN (1, 2, 3)
abbrev pub is_unfinished : TaskStatus → Bool
is_unfinished TaskStatus.waiting = true
is_unfinished TaskStatus.running = true
is_unfinished TaskStatus.retry_waiting = true
is_unfinished _ = false

-- succeeded, failed or canceled
abbrev pub is_terminal : TaskStatus → Bool
is_terminal TaskStatus.succeeded = true
is_terminal TaskStatus.failed = true
is_terminal TaskStatus.canceled = true
is_terminal _ = false
