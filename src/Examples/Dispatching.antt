-- ===== src/Examples/Dispatching.antt =====
-- The registrar's transactions at concrete inputs: a first start and a retry.
use dogx.Common.{ℕ, false, true, Option, none, some, [], ◌∷◌, ◌+◌}
use dogx.Model.{nonneg}
use dogx.Model.Task.{TaskType, TaskStatus}
use dogx.Model.Instance.{JobInstance, InstanceStatus, TriggerType, ExecutionMode}
use dogx.Database.{done, unconfirmed, transport}
use dogx.Transaction.{Db, Env}
use dogx.Registrar.{ExecutionConfig, Text, start_ordinary}
use dogx.Registrar.Starts.{StartAnswer, start_ordinary-StartAnswer}
use dogx.Registrar.Retry.{RetryCandidate}

abbrev settings : ExecutionConfig
settings = record {
  schema_version = 1;
  processor_name = "report";
  execution_mode = ExecutionMode.normal;
  post_enabled = false;
  params = "";
  max_retries = nonneg 2;
  retry_interval_seconds = 5;
  timeout_seconds = 60;
}

abbrev plain_text : Text
plain_text = record {
  unmarshal = λ _. some settings;
  is_blank = λ _. false;
  rune_count = λ _. 6;
  is_utf8 = λ _. true;
  has_nul = λ _. false;
}

abbrev round : InstanceStatus → Option ℕ → Option ℕ → JobInstance
round status started_at deadline_at = record {
  id = 4;
  job_id = 2;
  job_name = "report";
  executor_group_id = 3;
  trigger_type = TriggerType.scheduled;
  scheduled_at = some 1;
  request_id = none;
  params_overridden = false;
  triggered_by = none;
  execution_config = "";
  status = status;
  started_at = started_at;
  deadline_at = deadline_at;
  finished_at = none;
  end_reason = none;
  result_summary = none;
  created_at = 2;
  updated_at = 5;
}

abbrev waiting_tables : Db
waiting_tables = record { instances = round InstanceStatus.waiting none none ∷ []; tasks = [] }

abbrev unconfirmed_env : Env
unconfirmed_env = record { fault = λ _. none; clock = λ n. 11 + n; commit = unconfirmed transport }

start_ordinary-StartAnswer_example :
    StartAnswer plain_text 9 4 waiting_tables
      (start_ordinary plain_text 9 4 unconfirmed_env waiting_tables)
start_ordinary-StartAnswer_example =
    start_ordinary-StartAnswer plain_text 9 4 unconfirmed_env waiting_tables

abbrev retry_tables : Db
retry_tables = record {
  instances = round InstanceStatus.running (some 5) (some 90_000_000_000) ∷ [];
  tasks =
      record {
        id = 9;
        instance_id = 4;
        task_type = TaskType.ordinary;
        status = TaskStatus.retry_waiting;
        attempt_no = 1;
        used_attempts = 1;
        attempt_registered_at = some 5;
        next_dispatch_at = some 8;
        executor_instance_id = none;
        executor_address = none;
        result_data = none;
        result_summary = none;
        end_reason = none;
        started_at = some 5;
        finished_at = none;
        created_at = 5;
        updated_at = 5;
      }
      ∷ [];
}

abbrev answering_env : Env
answering_env = record { fault = λ _. none; clock = λ n. 11 + n; commit = done }

abbrev candidate : RetryCandidate
candidate = record { task_id = 9; instance_id = 4; attempt_no = 1; next_dispatch_at = 5 }
