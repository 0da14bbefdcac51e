-- ===== src/TaskStore/Evolution.antt =====
-- How a Task's row changes over any history of writes.
use dogx.Common.{ℕ, ◌+◌, ◌≡◌, refl, ◌⊎◌, inl, inr, is_some, if◌then◌else◌, Bool, true, false, arith}
use dogx.Model.Task
use dogx.Model.Task.{JobTask, TaskStatus}
use dogx.TaskStore.Dispatch.{bound, busy, rejected, accepts_binding}
use dogx.TaskStore.Start.{registered, accepts_registration}
use dogx.TaskStore.Outcome.{
  resulted, accepts_result, settled, accepts_settlement, cancelled, accepts_cancellation,
  valid_result_status,
}
use dogx.TaskStore.History.{
  RowChange, binding, refused, turned_down, retried, reported, unknown, stopped,
}

-- The diagram of a Task's states.
pub data Edge : TaskStatus → TaskStatus → Type 0 where
  stay : {s : TaskStatus} → Edge s s
  close_attempt : Edge TaskStatus.running TaskStatus.retry_waiting
  succeed : Edge TaskStatus.running TaskStatus.succeeded
  fail : Edge TaskStatus.running TaskStatus.failed
  retry : Edge TaskStatus.retry_waiting TaskStatus.running
  cancel : {s : TaskStatus} → Task.is_unfinished s ≡ true → Edge s TaskStatus.canceled

-- One write's effect on a row: its identity and first start stay, its status follows the diagram,
-- its number grows by one exactly where a retry is registered, a binding lasts as long as the
-- attempt does, and a finished row does not change at all.
pub record Evolves (t u : JobTask) : Type 0 where
  pub same_id : u.id ≡ t.id
  pub same_instance : u.instance_id ≡ t.instance_id
  pub same_type : u.task_type ≡ t.task_type
  pub same_start : u.started_at ≡ t.started_at
  pub edge : Edge t.status u.status
  pub numbered :
      (u.attempt_no ≡ t.attempt_no)
      ⊎ ((u.attempt_no ≡ t.attempt_no + 1)
          × (Task.is_retry_waiting t.status ≡ true)
          × (Task.is_running u.status ≡ true))
  pub binding_kept :
      u.attempt_no ≡ t.attempt_no
      → is_some t.executor_instance_id ≡ true
      → u.executor_instance_id ≡ t.executor_instance_id
  pub final : Task.is_terminal t.status ≡ true → u ≡ t

pub Evolves-refl : (t : JobTask) → Evolves t t
Evolves-refl t = record {
  same_id = refl;
  same_instance = refl;
  same_type = refl;
  same_start = refl;
  edge = stay;
  numbered = inl refl;
  binding_kept = λ _ _. refl;
  final = λ _. refl;
}

result_edge :
    (s target : TaskStatus) (interval : ℕ)
    → Task.is_running s ≡ true
    → valid_result_status target interval ≡ true
    → Edge s target
unfolding valid_result_status
result_edge TaskStatus.running TaskStatus.succeeded i r v = succeed
result_edge TaskStatus.running TaskStatus.failed i r v = fail
result_edge TaskStatus.running TaskStatus.retry_waiting i r v = close_attempt
result_edge TaskStatus.running TaskStatus.waiting i r v = cc
result_edge TaskStatus.running TaskStatus.running i r v = cc
result_edge TaskStatus.running TaskStatus.canceled i r v = cc
result_edge TaskStatus.running (TaskStatus.unknown n) i r v = cc
result_edge TaskStatus.waiting target i r v = cc
result_edge TaskStatus.retry_waiting target i r v = cc
result_edge TaskStatus.succeeded target i r v = cc
result_edge TaskStatus.failed target i r v = cc
result_edge TaskStatus.canceled target i r v = cc
result_edge (TaskStatus.unknown n) target i r v = cc

retry_edge : (s : TaskStatus) → Task.is_retry_waiting s ≡ true → Edge s TaskStatus.running
retry_edge TaskStatus.retry_waiting r = retry
retry_edge TaskStatus.waiting r = cc
retry_edge TaskStatus.running r = cc
retry_edge TaskStatus.succeeded r = cc
retry_edge TaskStatus.failed r = cc
retry_edge TaskStatus.canceled r = cc
retry_edge (TaskStatus.unknown n) r = cc

-- The target of a refusal or a settlement: another attempt, or the end.
case_edge :
    (s : TaskStatus) (b : Bool)
    → Task.is_running s ≡ true
    → Edge s (if b then TaskStatus.retry_waiting else TaskStatus.failed)
case_edge s true r = result_edge s TaskStatus.retry_waiting 1 r (unfold valid_result_status in refl)
case_edge s false r = result_edge s TaskStatus.failed 1 r (unfold valid_result_status in refl)

pub RowChange-Evolves : {t u : JobTask} → RowChange t u → Evolves t u
unfolding accepts_binding bound busy rejected registered accepts_registration accepts_result
    resulted settled accepts_settlement cancelled accepts_cancellation
RowChange-Evolves {t} (binding b now a) = record {
  same_id = refl;
  same_instance = refl;
  same_type = refl;
  same_start = refl;
  edge = stay;
  numbered = inl refl;
  binding_kept = ground arith;
  final = ground arith;
}
RowChange-Evolves {t} (refused interval w now a) = record {
  same_id = refl;
  same_instance = refl;
  same_type = refl;
  same_start = refl;
  edge =
      result_edge t.status TaskStatus.retry_waiting 1 (ground arith)
        (unfold valid_result_status in refl);
  numbered = inl refl;
  binding_kept = λ _ _. refl;
  final = ground arith;
}
RowChange-Evolves {t} (turned_down w total now a) = record {
  same_id = refl;
  same_instance = refl;
  same_type = refl;
  same_start = refl;
  edge = case_edge t.status _ (ground arith);
  numbered = inl refl;
  binding_kept = λ _ _. refl;
  final = ground arith;
}
RowChange-Evolves {t} (retried w a) = record {
  same_id = refl;
  same_instance = refl;
  same_type = refl;
  same_start = refl;
  edge = retry_edge t.status (ground arith);
  numbered = inr (refl, ground arith, refl);
  binding_kept = λ e _. absurd (omega arith);
  final = ground arith;
}
RowChange-Evolves {t} (reported w now v a) = record {
  same_id = refl;
  same_instance = refl;
  same_type = refl;
  same_start = refl;
  edge = result_edge t.status w.status w.retry_interval_seconds (ground arith) v;
  numbered = inl refl;
  binding_kept = λ _ _. refl;
  final = ground arith;
}
RowChange-Evolves {t} (unknown w a) = record {
  same_id = refl;
  same_instance = refl;
  same_type = refl;
  same_start = refl;
  edge = case_edge t.status _ (ground arith);
  numbered = inl refl;
  binding_kept = λ _ _. refl;
  final = ground arith;
}
RowChange-Evolves {t} (stopped w a) = record {
  same_id = refl;
  same_instance = refl;
  same_type = refl;
  same_start = refl;
  edge = cancel (ground arith);
  numbered = inl refl;
  binding_kept = λ _ _. refl;
  final = ground arith;
}
