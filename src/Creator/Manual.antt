-- ===== src/Creator/Manual.antt =====
-- trigger/creator.go: TriggerManual.
use Prim.Native.String.{String}
use text.Mathlib.Text.{◌==◌ as str_eq}
use dogx.Common.{
  ℕ, ◌==◌, if◌then◌else◌, ◌&&◌, ◌||◌, not, Bool, true, false, Option, none, some, List,
}
use dogx.Model.{Snapshot}
use dogx.Schedule.{Grammar}
use dogx.Model.Job.{JobDefinition}
use dogx.Model.Instance.{JobInstance, TriggerType}
use dogx.InstanceStore.Listings.{ManualIdentity, find_manual}
use dogx.InstanceStore.Writes.{insert}
use dogx.Creator.{
  Tables, invalid_input, blocked, request_conflict, indeterminate, Answer, value, failed, ◌>>=◌,
  from_result, Statement, TriggerEnv, ExecutionSnapshot, snapshot_of, snapshot, lock, active,
  available_group, commit,
}

pub record ManualTrigger : Type 0 where
  pub job_id : ℕ
  pub request_id : ℕ
  pub params_overridden : Bool
  pub params : String
  pub operator_id : ℕ

abbrev pub same_params : Option String → String → Bool
same_params none given = false
same_params (some stored) given = str_eq stored given

abbrev pub same_flag : Bool → Bool → Bool
same_flag true b = b
same_flag false b = not b

unfoldable pub replay : ManualIdentity → ManualTrigger → Answer ℕ
replay prior input =
    if not (same_flag prior.params_overridden input.params_overridden)
      || (input.params_overridden && not (same_params prior.override_params input.params))
    then failed request_conflict
    else value prior.id

unfoldable pub normalize_params : Grammar → String → Option String
normalize_params g text =
    if not (g.valid_string text) || g.contains_nul text then none else some (g.trim_space text)

abbrev pub is_rejected : ManualTrigger → Bool
is_rejected given =
    given.job_id == 0
    || given.operator_id == 0
    || (not given.params_overridden && not (str_eq given.params ""))

module _ (encode : ExecutionSnapshot → Snapshot) (stored_params : Snapshot → Option String) where
  abbrev pub manual_config : JobDefinition → ManualTrigger → ExecutionSnapshot
  manual_config j input =
      if input.params_overridden
      then record (snapshot_of j) { params = input.params }
      else snapshot_of j

  abbrev pub manual_instance : JobDefinition → ManualTrigger → JobInstance
  manual_instance j input = record (snapshot encode j TriggerType.manual (manual_config j input)) {
    request_id = some input.request_id;
    params_overridden = input.params_overridden;
    triggered_by = some input.operator_id;
  }

  -- FindManual
  abbrev pub prior :
      TriggerEnv → Statement → ManualTrigger → List JobInstance → Answer (Option ManualIdentity)
  prior env s input rows =
      from_result (find_manual stored_params input.job_id input.request_id (env.fault s) rows)

  abbrev pub replayed :
      Tables → ManualTrigger → Option ManualIdentity → Answer ((ℕ × Bool) × Tables)
  replayed t input none = failed indeterminate
  replayed t input (some p) = do id ← replay p input; value ((id, false), t)

  -- Behind the insertion: a conflict is looked up again.
  abbrev pub inserted :
      TriggerEnv
      → Tables
      → ManualTrigger
      → (ℕ × Bool) × List JobInstance
      → Answer ((ℕ × Bool) × Tables)
  inserted env t input ((id, true), rows) = value ((id, true), record t { instances = rows })
  inserted env t input ((id, false), rows) = do
    p ← prior env Statement.find_again input rows
    replayed (record t { instances = rows }) input p

  unfoldable pub create_manual :
      TriggerEnv → Tables → ManualTrigger → JobDefinition → Answer ((ℕ × Bool) × Tables)
  unfolding available_group active
  create_manual env t input j = do
    ready ← available_group (env.fault Statement.check_group) j.executor_group_id t.groups
    busy ← active env j t.instances
    if busy then failed blocked else do
      r ← from_result (
          insert (env.fault Statement.insert_row) env.next_id env.database_now
            (manual_instance j input) t.instances)
      inserted env t input r

  abbrev pub found_or_created :
      TriggerEnv
      → Tables
      → ManualTrigger
      → JobDefinition
      → Option ManualIdentity
      → Answer ((ℕ × Bool) × Tables)
  found_or_created env t input j (some p) = replayed t input (some p)
  found_or_created env t input j none = create_manual env t input j

  -- The callback of TriggerManual: the ID, and whether a row was created.
  unfoldable pub manual_body : TriggerEnv → ManualTrigger → Tables → Answer ((ℕ × Bool) × Tables)
  unfolding lock create_manual replay
  manual_body env input t = do
    j ← lock (env.fault Statement.lock_job) input.job_id t.jobs
    p ← prior env Statement.find_request input t.instances
    found_or_created env t input j p

  abbrev pub manual_answer : Tables × Answer (ℕ × Bool) → Tables × Answer ℕ × Option ℕ
  manual_answer (t, failed e) = (t, failed e, none)
  manual_answer (t, value (id, created)) = (t, value id, if created then some id else none)

  -- TriggerManual: the tables, the answer, and the hinted round.
  unfoldable pub trigger_manual :
      Grammar → TriggerEnv → ManualTrigger → Tables → Tables × Answer ℕ × Option ℕ
  unfolding manual_body commit
  trigger_manual grammar env given t =
      if is_rejected given
      then (t, failed invalid_input, none)
      else elim (normalize_params grammar given.params) [
        | none ↦ (t, failed invalid_input, none)
        | some text ↦ elim env.slot [
          | some e ↦ (t, failed e, none)
          | none ↦
              manual_answer
                (commit env.commit t (manual_body env (record given { params = text }) t))
        ]
      ]
