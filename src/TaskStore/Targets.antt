-- ===== src/TaskStore/Targets.antt =====
-- job_task_repository.go: a Task with its parent, for results and settlements, and the pages of the
-- management list. `budget_part` is PostgreSQL's CASE expression on a snapshot, `is_jsonb` its
-- pg_input_is_valid.
use Prim.Native.String.{String}
use dogx.Common.{
  ℕ, ◌-◌, ◌*◌, ◌/◌, ◌==◌, leb, ltb, if◌then◌else◌, ◌||◌, is_some, Bool, Option, none, some, List,
  [], ◌∷◌, length, map, select, take, zero, suc,
}
use dogx.Common.Keyset.{order_by}
use dogx.Model.{Time, EndReason, Snapshot}
use dogx.Model.Task.{JobTask, TaskType, TaskStatus}
use dogx.Model.Instance.{JobInstance}
use dogx.Database.{Fault, driver, invalid_argument, invalid_facts, Result, ok, err, elem}
use dogx.InstanceStore.Listings.{queried, first_row}
use dogx.Settler.{UnboundTarget}
use dogx.TaskStore.Listings.{parent, joined}

pub record TaskResultTarget : Type 0 where
  pub task_id : ℕ
  pub instance_id : ℕ
  pub job_id : ℕ
  pub executor_group_id : ℕ
  pub attempt_no : ℕ
  pub task_type : TaskType
  pub status : TaskStatus
  pub used_attempts : ℕ
  pub executor_instance_id : Option ℕ
  pub execution_config : Snapshot

abbrev pub result_target : JobTask → JobInstance → TaskResultTarget
result_target t i = record {
  task_id = t.id;
  instance_id = t.instance_id;
  job_id = i.job_id;
  executor_group_id = i.executor_group_id;
  attempt_no = t.attempt_no;
  task_type = t.task_type;
  status = t.status;
  used_attempts = t.used_attempts;
  executor_instance_id = t.executor_instance_id;
  execution_config = i.execution_config;
}

-- The row of an inner join, if the parent is there.
abbrev pub with_parent :
    {B : Type 0} → (JobTask → JobInstance → B) → List JobInstance → JobTask → List B
with_parent f instances t = elim (parent t.instance_id instances) [
  | none ↦ []
  | some i ↦ f t i ∷ []
]

unfoldable pub find_result_target :
    ℕ → Option Fault → List JobInstance → List JobTask → Result (Option TaskResultTarget)
find_result_target id fault instances tasks =
    if id == 0
    then err invalid_argument
    else queried fault
        (first_row (joined (with_parent result_target instances) (select (λ t. t.id == id) tasks)))

module _ (budget_part : Snapshot → Snapshot) where
  abbrev pub unbound_target : JobTask → JobInstance → UnboundTarget
  unbound_target t i = record {
    task_id = t.id;
    instance_id = t.instance_id;
    attempt_no = t.attempt_no;
    task_type = t.task_type;
    status = t.status;
    is_bound = is_some t.executor_instance_id || is_some t.executor_address;
    attempt_registered_at = t.attempt_registered_at;
    instance_status = i.status;
    started_at = i.started_at;
    deadline_at = i.deadline_at;
    execution_config = budget_part i.execution_config;
  }

  unfoldable pub find_unbound_targets :
      List ℕ → Option Fault → List JobInstance → List JobTask → Result (List UnboundTarget)
  find_unbound_targets ids fault instances tasks =
      if ltb 16 (length ids) || elem 0 ids
      then err invalid_argument
      else if length ids == 0
      then ok []
      else queried fault (
          order_by (λ a b. leb a.task_id b.task_id)
            (joined (with_parent unbound_target instances) (select (λ t. elem t.id ids) tasks)))

pub record TaskSummary : Type 0 where
  pub id : ℕ
  pub instance_id : ℕ
  pub task_type : TaskType
  pub status : TaskStatus
  pub attempt_no : ℕ
  pub used_attempts : ℕ
  pub attempt_registered_at : Option Time
  pub next_dispatch_at : Option Time
  pub executor_instance_id : Option ℕ
  pub executor_address : Option String
  pub result_summary : Option String
  pub end_reason : Option EndReason
  pub started_at : Option Time
  pub finished_at : Option Time
  pub created_at : Time
  pub updated_at : Time

abbrev pub task_summary : JobTask → TaskSummary
task_summary t = record {
  id = t.id;
  instance_id = t.instance_id;
  task_type = t.task_type;
  status = t.status;
  attempt_no = t.attempt_no;
  used_attempts = t.used_attempts;
  attempt_registered_at = t.attempt_registered_at;
  next_dispatch_at = t.next_dispatch_at;
  executor_instance_id = t.executor_instance_id;
  executor_address = t.executor_address;
  result_summary = t.result_summary;
  end_reason = t.end_reason;
  started_at = t.started_at;
  finished_at = t.finished_at;
  created_at = t.created_at;
  updated_at = t.updated_at;
}

abbrev pub skip_rows : {A : Type 0} → ℕ → List A → List A
skip_rows zero xs = xs
skip_rows (suc n) [] = []
skip_rows (suc n) (x ∷ xs) = skip_rows n xs

-- int64(^uint(0) >> 1), the largest int.
abbrev pub max_int : ℕ
max_int = 9_223_372_036_854_775_807

-- The page and the total; `counting` is the failure of the count, `listing` that of the page.
unfoldable pub list_by_instance :
    ℕ → ℕ → ℕ → Option Fault → Option Fault → List JobTask → Result (List TaskSummary × ℕ)
list_by_instance instance_id page page_size counting listing tasks =
    if instance_id == 0
      || page == 0
      || page_size == 0
      || ltb 200 page_size
      || ltb (max_int / page_size) (page - 1)
    then err invalid_argument
    else let rows = select (λ t. t.instance_id == instance_id) tasks in
      elim counting [
        | some f ↦ err (driver f)
        | none ↦ queried listing (
          take page_size (
              skip_rows ((page - 1) * page_size)
                (order_by (λ a b. leb a.id b.id) (map task_summary rows))),
          length rows,
        )
      ]

-- The answer of a query that returns at most one row with a value that may be NULL.
unfoldable pub check_result_data :
    (List ℕ → Option Bool) → Option (List ℕ) → Option Fault → Result Bool
check_result_data is_jsonb contents fault = elim contents [
  | none ↦ err invalid_argument
  | some text ↦ elim fault [
    | some f ↦ err (driver f)
    | none ↦ elim (is_jsonb text) [ none ↦ err invalid_facts | some valid ↦ ok valid ]
  ]
]
