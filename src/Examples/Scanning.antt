-- ===== src/Examples/Scanning.antt =====
-- The recovery scans at concrete inputs: running rounds for the check queue, unbound attempts for the
-- settler.
use dogx.Common.{◌≡◌, true, false, none, some, List, [], ◌∷◌, length}
use dogx.Model.Task.{JobTask}
use dogx.Model.Instance.{JobInstance, InstanceStatus}
use dogx.Database.{ok}
use dogx.TaskStore.Start.{new_ordinary}
use dogx.CheckRecovery
use dogx.CheckRecovery.Climbs as CheckClimbs
use dogx.CheckRecovery.Climbs.{scan-IsClimbing}
use dogx.UnboundRuntime
use dogx.UnboundRuntime.{valid_result}
use dogx.UnboundRuntime.Batches.{settle_batch-valid_result}
use dogx.UnboundRuntime.Climbs as UnboundClimbs
use dogx.UnboundRuntime.Climbs.{scan_pages-IsClimbing}
use dogx.Settler.Batch.{settle_batch}
use dogx.Examples.Settling.{two_retries, overdue, settling}
use dogx.Examples.Stopping.{stopped_instance}

abbrev running_instance : JobInstance
running_instance = record stopped_instance {
  status = InstanceStatus.running;
  started_at = some 5;
  deadline_at = some 900;
  end_reason = none;
}

abbrev running_rows : List JobInstance
running_rows = running_instance ∷ record running_instance { id = 6 } ∷ []

abbrev check_page : CheckRecovery.PageEnv
check_page = record {
  capacity = none;
  clock = ok 100;
  query = record { ended = false; ended_late = false; fault = none; rows = running_rows };
  hint = λ _. none;
}

scan-IsClimbing_example :
    CheckClimbs.IsClimbing CheckRecovery.start_position
      (CheckRecovery.scan 30 2 (check_page ∷ check_page ∷ []) CheckRecovery.start_position)
scan-IsClimbing_example =
    scan-IsClimbing 30 2 (check_page ∷ check_page ∷ []) CheckRecovery.start_position

abbrev tasks : List JobTask
tasks = new_ordinary 9 4 5 ∷ []

settle_batch-valid_result_example :
    valid_result (length (overdue ∷ [])) (settle_batch two_retries 30 settling (overdue ∷ []) tasks)
    ≡ true
settle_batch-valid_result_example =
    settle_batch-valid_result two_retries 30 settling (overdue ∷ []) tasks

abbrev unbound_page : UnboundRuntime.PageEnv
unbound_page = record {
  ended = false;
  ended_late = false;
  fault = none;
  instances = running_rows;
  tasks = tasks;
  batches = λ _. record { ended = false; tasks = tasks; settle = settling };
}

abbrev traversal : UnboundRuntime.Traversal
traversal = record { scan_now = 100; cutoff = 70; cursor = none }

scan_pages-IsClimbing_example :
    UnboundClimbs.IsClimbing traversal
      (UnboundRuntime.scan_pages two_retries 30 2 (unbound_page ∷ []) traversal)
scan_pages-IsClimbing_example = scan_pages-IsClimbing two_retries 30 2 (unbound_page ∷ []) traversal
