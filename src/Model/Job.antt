-- ===== src/Model/Job.antt =====
-- apps/job/internal/model/job_definition.go: the definition of a Job.
use Prim.Native.String.{String}
use dogx.Common.{ℕ, Bool, Option}
use dogx.Model.{Time}
use dogx.Model.Instance.{ExecutionMode, MisfirePolicy, BlockPolicy}

-- `is_deleted` is a set deleted_at; the other audit columns are left out. `is_enabled` is status = 1.
pub record JobDefinition : Type 0 where
  pub id : ℕ
  pub is_deleted : Bool
  pub name : String
  pub executor_group_id : ℕ
  pub processor_name : String
  pub execution_mode : ExecutionMode
  pub post_enabled : Bool
  pub params : String
  pub cron_expr : String
  pub is_enabled : Bool
  pub misfire_policy : MisfirePolicy
  pub block_policy : BlockPolicy
  pub max_retries : ℕ
  pub retry_interval_seconds : ℕ
  pub timeout_seconds : ℕ
  pub next_trigger_at : Option Time
