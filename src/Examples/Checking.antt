-- ===== src/Examples/Checking.antt =====
-- A completion check at a concrete input: a round whose Task has failed.
use dogx.Common.{false, true, Option, none, some, []}
use dogx.Model.{Snapshot}
use dogx.Model.Task.{TaskStatus}
use dogx.Model.Instance.{InstanceStatus, ExecutionMode}
use dogx.Database.{ok, done}
use dogx.Transaction.{Db}
use dogx.Checker.{CheckConfig, CheckEnv, check}
use dogx.Checker.Facts.{Ends}
use dogx.Checker.Ends.{check-Ends}

abbrev ordinary_config : Snapshot → Option CheckConfig
ordinary_config _ = some (record {
  schema_version = some 1;
  execution_mode = some ExecutionMode.normal;
  post_enabled = some false;
})

abbrev failed_task : CheckEnv
failed_task = record {
  ended = false;
  facts = ok (
      some (record {
        id = 4;
        status = InstanceStatus.running;
        deadline_at = some 90;
        execution_config = "";
        task_id = some 9;
        task_status = some TaskStatus.failed;
        result_summary = some "division by zero";
      }));
  ended_late = false;
  clock = ok 50;
  others = λ db. db;
  reply = done;
  completed_at = 51;
  timeout = record { fault = λ _. none; clock = λ _. 50; commit = done };
}

abbrev no_rows : Db
no_rows = record { instances = []; tasks = [] }

check-Ends_example :
    Ends ordinary_config true failed_task 4 no_rows
      (check ordinary_config true failed_task 4 no_rows)
check-Ends_example = check-Ends ordinary_config true failed_task 4 no_rows
