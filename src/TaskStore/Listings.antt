-- ===== src/TaskStore/Listings.antt =====
-- job_task_repository.go: the reads without a lock. A query takes the rows of both tables that it finds
-- and the database's failure, if any; an argument check comes first.
use dogx.Common.{
  ℕ, ◌==◌, ltb, if◌then◌else◌, ◌&&◌, ◌||◌, not, is_some, is_none, Bool, true, false, Option, none,
  some, List, [], ◌∷◌, select, take,
}
use dogx.Common.Keyset.{order_by, before, not_after}
use dogx.Model.{Time, is_zero}
use dogx.Model.Task.{JobTask, TaskType, TaskStatus}
use dogx.Model.Task
use dogx.Model.Instance.{JobInstance, is_running}
use dogx.Database.{Fault, invalid_argument, Result, err, sql_le, sql_gt}
use dogx.InstanceStore.Listings.{queried, first_row, prepend}
use dogx.Registrar.Retry.{RetryCandidate}
use dogx.Settler.{UnboundCandidate}

-- JOIN job_instance ON id = instance_id
abbrev pub parent : ℕ → List JobInstance → Option JobInstance
parent id instances = first_row (select (λ i. i.id == id) instances)

abbrev pub sql_after : Option Time → Option Time → Bool
sql_after t none = false
sql_after t (some s) = sql_gt t s

-- The rows that a join and its WHERE clause make, in the order of the table.
abbrev pub joined : {A B : Type 0} → (A → List B) → List A → List B
joined f [] = []
joined f (x ∷ xs) = prepend (f x) (joined f xs)

pub record UnboundCursor : Type 0 where
  pub attempt_registered_at : Time
  pub task_id : ℕ

abbrev pub unbound_key : UnboundCandidate → ℕ × ℕ
unbound_key c = (c.attempt_registered_at, c.task_id)

abbrev pub behind_unbound : Option UnboundCursor → UnboundCandidate → Bool
behind_unbound none c = true
behind_unbound (some a) c = before (a.attempt_registered_at, a.task_id) (unbound_key c)

-- i.status = 2 AND i.started_at IS NOT NULL AND i.deadline_at > i.started_at AND i.deadline_at > now
abbrev pub still_runs : Time → JobInstance → Bool
still_runs now i =
    is_running i.status
    && is_some i.started_at
    && sql_after i.deadline_at i.started_at
    && sql_gt i.deadline_at now

unfoldable pub unbound_candidate :
    Time → Time → Option UnboundCursor → List JobInstance → JobTask → List UnboundCandidate
unbound_candidate now cutoff cursor instances t =
    if not (
      Task.is_running t.status
      && is_none t.executor_instance_id
      && is_none t.executor_address
      && sql_le t.attempt_registered_at cutoff)
    then []
    else elim t.attempt_registered_at [
      | none ↦ []
      | some at ↦ elim (parent t.instance_id instances) [
        | none ↦ []
        | some i ↦
            let c : UnboundCandidate = record {
              task_id = t.id;
              instance_id = t.instance_id;
              attempt_no = t.attempt_no;
              attempt_registered_at = at;
            } in
            if still_runs now i && behind_unbound cursor c then c ∷ [] else []
      ]
    ]

abbrev pub valid_unbound_cursor : Time → Option UnboundCursor → Bool
valid_unbound_cursor cutoff none = true
valid_unbound_cursor cutoff (some a) =
    not (a.task_id == 0 || is_zero a.attempt_registered_at || ltb cutoff a.attempt_registered_at)

unfoldable pub list_unbound_candidates :
    Time
    → Time
    → Option UnboundCursor
    → ℕ
    → Option Fault
    → List JobInstance
    → List JobTask
    → Result (List UnboundCandidate)
unfolding unbound_candidate
list_unbound_candidates now cutoff cursor limit fault instances tasks =
    if is_zero now
      || is_zero cutoff
      || not (ltb cutoff now)
      || limit == 0
      || not (valid_unbound_cursor cutoff cursor)
    then err invalid_argument
    else queried fault (
        take limit (
          order_by (λ c d. not_after (unbound_key c) (unbound_key d))
            (joined (unbound_candidate now cutoff cursor instances) tasks)))

pub record RetryCursor : Type 0 where
  pub next_dispatch_at : Time
  pub task_id : ℕ

abbrev pub retry_key : RetryCandidate → ℕ × ℕ
retry_key c = (c.next_dispatch_at, c.task_id)

abbrev pub behind_retry : Option RetryCursor → RetryCandidate → Bool
behind_retry none c = true
behind_retry (some a) c = before (a.next_dispatch_at, a.task_id) (retry_key c)

unfoldable pub retry_candidate :
    Time → Option RetryCursor → List JobInstance → JobTask → List RetryCandidate
retry_candidate now cursor instances t =
    if not (Task.is_retry_waiting t.status && sql_le t.next_dispatch_at now)
    then []
    else elim t.next_dispatch_at [
      | none ↦ []
      | some at ↦ elim (parent t.instance_id instances) [
        | none ↦ []
        | some i ↦
            let c : RetryCandidate = record {
              task_id = t.id;
              instance_id = t.instance_id;
              attempt_no = t.attempt_no;
              next_dispatch_at = at;
            } in
            if is_running i.status && sql_gt i.deadline_at now && behind_retry cursor c
            then c ∷ []
            else []
      ]
    ]

abbrev pub valid_retry_cursor : Time → Option RetryCursor → Bool
valid_retry_cursor now none = true
valid_retry_cursor now (some a) =
    not (a.task_id == 0 || is_zero a.next_dispatch_at || ltb now a.next_dispatch_at)

unfoldable pub list_retry_candidates :
    Time
    → Option RetryCursor
    → ℕ
    → Option Fault
    → List JobInstance
    → List JobTask
    → Result (List RetryCandidate)
unfolding retry_candidate
list_retry_candidates now cursor limit fault instances tasks =
    if is_zero now || limit == 0 || ltb 128 limit || not (valid_retry_cursor now cursor)
    then err invalid_argument
    else queried fault (
        take limit (
          order_by (λ c d. not_after (retry_key c) (retry_key d))
            (joined (retry_candidate now cursor instances) tasks)))
