-- ===== src/Examples/Settling.antt =====
-- The settler at concrete inputs: one overdue attempt of a running round.
use dogx.Common.{refl, false, Option, some, [], ◌∷◌}
use dogx.Model.{Snapshot, nonneg}
use dogx.Model.Task.{TaskType, TaskStatus}
use dogx.Model.Instance.{InstanceStatus, ExecutionMode}
use dogx.Database.{ok, done}
use dogx.TaskStore.Start.{new_ordinary}
use dogx.Settler.{
  UnboundCandidate, UnboundTarget, FrozenBudget, frozen_budget, settlement, prepare, prepare_type,
  prepare_status, prepare_observed, prepare_parent,
}
use dogx.Settler.Eligible.{IsEligible, prepare-IsEligible}
use dogx.Settler.Batch.{SettleEnv, settle_batch}
use dogx.Settler.Processed.{BatchEnd, settle_batch-BatchEnd}

abbrev pub two_retries : Snapshot → Option FrozenBudget
two_retries _ = some (record {
  schema_version = 1;
  execution_mode = ExecutionMode.normal;
  max_retries = some (nonneg 2);
  retry_interval = some 5;
})

abbrev pub overdue : UnboundCandidate
overdue = record { task_id = 9; instance_id = 4; attempt_no = 1; attempt_registered_at = 5 }

abbrev pub unbound : UnboundTarget
unbound = record {
  task_id = 9;
  instance_id = 4;
  attempt_no = 1;
  task_type = TaskType.ordinary;
  status = TaskStatus.running;
  is_bound = false;
  attempt_registered_at = some 5;
  instance_status = InstanceStatus.running;
  started_at = some 5;
  deadline_at = some 900;
  execution_config = "";
}

prepare-IsEligible_example :
    IsEligible two_retries 30 overdue unbound 100
      (settlement two_retries 30 overdue 100 3 5_000_000_000)
unfolding prepare prepare_type prepare_status prepare_observed prepare_parent frozen_budget
prepare-IsEligible_example =
    prepare-IsEligible two_retries 30 overdue unbound 100
      (settlement two_retries 30 overdue 100 3 5_000_000_000) refl

abbrev pub settling : SettleEnv
settling = record {
  clock = ok 100;
  targets = ok (unbound ∷ []);
  ended = λ _. false;
  ended_write = λ _. false;
  reply = λ _. done;
  operation_ended = λ _. false;
  others = λ _ ts. ts;
}

settle_batch-BatchEnd_example :
    BatchEnd two_retries 30 settling
      (overdue ∷ [])
      (new_ordinary 9 4 5 ∷ [])
      (settle_batch two_retries 30 settling (overdue ∷ []) (new_ordinary 9 4 5 ∷ []))
settle_batch-BatchEnd_example =
    settle_batch-BatchEnd two_retries 30 settling (overdue ∷ []) (new_ordinary 9 4 5 ∷ [])
