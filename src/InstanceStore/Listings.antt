-- ===== src/InstanceStore/Listings.antt =====
-- job_instance_repository.go: the reads without a lock. A query takes the rows that it finds and the
-- database's failure, if any; an argument check comes first where the code has one.
use Prim.Native.String.{String}
use dogx.Common.{
  ℕ, ◌==◌, leb, ltb, if◌then◌else◌, ◌&&◌, ◌||◌, not, Bool, true, false, Option, none, some, List,
  [], ◌∷◌, length, map, select, take,
}
use dogx.Common.Sort.{order}
use dogx.Common.Keyset.{order_by, descending, first_or_zero, before, not_after}
use dogx.Model.{Time, is_zero, Snapshot}
use dogx.Model.Instance.{
  JobInstance, InstanceStatus, is_waiting, is_running, is_stopping, is_active,
}
use dogx.Database.{Fault, driver, invalid_argument, instance_not_found, Result, ok, err, elem}

-- A query's rows, or the driver's error.
abbrev pub queried : {A : Type 0} → Option Fault → A → Result A
queried none a = ok a
queried (some f) a = err (driver f)

abbrev pub instance_id : JobInstance → ℕ
instance_id i = i.id

abbrev pub exists : {A : Type 0} → (A → Bool) → List A → Bool
exists p [] = false
exists p (x ∷ xs) = p x || exists p xs

abbrev pub first_row : {A : Type 0} → List A → Option A
first_row [] = none
first_row (x ∷ xs) = some x

unfoldable pub stopping_upper_id : Option Fault → List JobInstance → Result ℕ
stopping_upper_id fault rows = queried fault (
    first_or_zero (take 1 (descending (map instance_id (select (λ i. is_stopping i.status) rows)))))

abbrev pub is_stopping_between : ℕ → ℕ → JobInstance → Bool
is_stopping_between after upper i = is_stopping i.status && ltb after i.id && leb i.id upper

unfoldable pub list_stopping_candidates :
    ℕ → ℕ → ℕ → Option Fault → List JobInstance → Result (List ℕ)
list_stopping_candidates after upper limit fault rows =
    if upper == 0 || ltb upper after || limit == 0
    then err invalid_argument
    else queried fault
        (take limit (order (map instance_id (select (is_stopping_between after upper) rows))))

unfoldable pub max_waiting_id : Option Fault → List JobInstance → Result ℕ
max_waiting_id fault rows =
    queried fault (
      first_or_zero
        (take 1 (descending (map instance_id (select (λ i. is_waiting i.status) rows)))))

abbrev pub is_waiting_between : ℕ → ℕ → JobInstance → Bool
is_waiting_between cursor upper i = is_waiting i.status && ltb cursor i.id && leb i.id upper

unfoldable pub list_waiting_ids : ℕ → ℕ → ℕ → Option Fault → List JobInstance → Result (List ℕ)
list_waiting_ids cursor upper limit fault rows =
    if ltb upper cursor || limit == 0 || ltb 128 limit
    then err invalid_argument
    else if cursor == upper
    then ok []
    else queried fault
        (take limit (order (map instance_id (select (is_waiting_between cursor upper) rows))))

pub record WaitingInstance : Type 0 where
  pub id : ℕ
  pub job_id : ℕ
  pub executor_group_id : ℕ
  pub status : InstanceStatus
  pub execution_config : Snapshot

abbrev pub waiting_instance : JobInstance → WaitingInstance
waiting_instance i = record {
  id = i.id;
  job_id = i.job_id;
  executor_group_id = i.executor_group_id;
  status = i.status;
  execution_config = i.execution_config;
}

unfoldable pub load_waiting :
    List ℕ → Option Fault → List JobInstance → Result (List WaitingInstance)
load_waiting ids fault rows =
    if length ids == 0
    then ok []
    else if ltb 1024 (length ids)
    then err invalid_argument
    else queried fault
        (map waiting_instance (select (λ i. elem i.id ids && is_waiting i.status) rows))

unfoldable pub exists_instance : ℕ → Option Fault → List JobInstance → Result Bool
exists_instance id fault rows =
    if id == 0 then err invalid_argument else queried fault (exists (λ i. i.id == id) rows)

abbrev pub taken_row : Option Fault → Option JobInstance → Result JobInstance
taken_row (some f) found = err (driver f)
taken_row none none = err instance_not_found
taken_row none (some i) = ok i

unfoldable pub find_by_id : ℕ → Option Fault → List JobInstance → Result JobInstance
find_by_id id fault rows =
    if id == 0
    then err invalid_argument
    else taken_row fault (first_row (select (λ i. i.id == id) rows))

unfoldable pub has_active : ℕ → Option Fault → List JobInstance → Result Bool
has_active job_id fault rows =
    queried fault (exists (λ i. i.job_id == job_id && is_active i.status) rows)

unfoldable pub has_active_for_group : ℕ → Option Fault → List JobInstance → Result Bool
has_active_for_group group_id fault rows =
    queried fault (exists (λ i. i.executor_group_id == group_id && is_active i.status) rows)

pub record RunningCandidate : Type 0 where
  pub id : ℕ
  pub started_at : Time

abbrev pub running_key : RunningCandidate → ℕ × ℕ
running_key c = (c.started_at, c.id)

abbrev pub follows_cursor : Option RunningCandidate → RunningCandidate → Bool
follows_cursor none c = true
follows_cursor (some a) c = before (running_key a) (running_key c)

-- status = 2 AND started_at < eligible_before: a row with no start time is not listed.
abbrev pub running_candidate : Time → Option RunningCandidate → JobInstance → List RunningCandidate
running_candidate eligible_before after i = elim i.started_at [
  | none ↦ []
  | some t ↦
      let c : RunningCandidate = record { id = i.id; started_at = t } in
      if is_running i.status && ltb t eligible_before && follows_cursor after c then c ∷ [] else []
]

abbrev pub prepend : {A : Type 0} → List A → List A → List A
prepend [] ys = ys
prepend (x ∷ xs) ys = x ∷ prepend xs ys

abbrev pub running_rows : Time → Option RunningCandidate → List JobInstance → List RunningCandidate
running_rows eligible_before after [] = []
running_rows eligible_before after (i ∷ rows) =
    prepend (running_candidate eligible_before after i) (running_rows eligible_before after rows)

abbrev pub valid_cursor : Time → Option RunningCandidate → Bool
valid_cursor eligible_before none = true
valid_cursor eligible_before (some a) =
    not (a.id == 0 || is_zero a.started_at || not (ltb a.started_at eligible_before))

unfoldable pub list_running_candidates :
    Time
    → Option RunningCandidate
    → ℕ
    → Option Fault
    → List JobInstance
    → Result (List RunningCandidate)
list_running_candidates eligible_before after limit fault rows =
    if is_zero eligible_before || limit == 0 || not (valid_cursor eligible_before after)
    then err invalid_argument
    else queried fault (
        take limit (
          order_by (λ c d. not_after (running_key c) (running_key d))
            (running_rows eligible_before after rows)))

pub record ManualIdentity : Type 0 where
  pub id : ℕ
  pub params_overridden : Bool
  pub override_params : Option String

abbrev pub has_request : ℕ → ℕ → JobInstance → Bool
has_request job_id request i =
    i.job_id == job_id && elim i.request_id [ none ↦ false | some r ↦ r == request ]

-- `params` is PostgreSQL's `->>'params'` on the snapshot.
module _ (params : Snapshot → Option String) where
  abbrev pub manual_identity : JobInstance → ManualIdentity
  manual_identity i = record {
    id = i.id;
    params_overridden = i.params_overridden;
    override_params = if i.params_overridden then params i.execution_config else none;
  }

  unfoldable pub find_manual :
      ℕ → ℕ → Option Fault → List JobInstance → Result (Option ManualIdentity)
  find_manual job_id request fault rows =
      queried fault (first_row (map manual_identity (select (has_request job_id request) rows)))
