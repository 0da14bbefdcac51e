-- ===== src/Examples/Triggering.antt =====
-- Rounds made by hand and by schedule, at concrete inputs.
use Prim.Native.String.{String}
use dogx.Common.{ℕ, ◌+◌, ◌≡◌, refl, true, false, Option, none, some, [], ◌∷◌}
use dogx.Model.{Snapshot}
use dogx.Model.Job.{JobDefinition}
use dogx.Model.Instance.{ExecutionMode, MisfirePolicy, BlockPolicy}
use dogx.Database.{done}
use dogx.InstanceStore.Listings.{find_manual, has_active}
use dogx.InstanceStore.Writes.{insert, valid_identity, conflicts, snapshot_row, same_identity}
use dogx.Schedule.{Grammar, next, parse, occurrence, preview}
use dogx.Schedule.Previews.{Previewed, preview-Previewed}
use dogx.Creator.{
  Tables, value, TriggerEnv, ExecutionSnapshot, lock, advance, available, available_group, commit,
  active,
}
use dogx.Creator.Manual.{
  ManualTrigger, replay, create_manual, manual_body, normalize_params, trigger_manual,
}
use dogx.Creator.Automatic.{
  AutomaticResult, created, not_due, skipped, is_misfire, decide_round, automatic_due,
  automatic_locked, automatic_body, trigger_automatic,
}
use dogx.Creator.Repeats.{trigger_manual_again}
use dogx.Creator.Advances.{IsAdvance}
use dogx.Creator.Advances.Succeeds.{trigger_automatic-IsAdvance}
use dogx.Creator.Advances.Due.{hint_of, Call, trigger_automatic-Call, trigger_automatic_again}

abbrev nightly : JobDefinition
nightly = record {
  id = 2;
  is_deleted = false;
  name = "report";
  executor_group_id = 3;
  processor_name = "report";
  execution_mode = ExecutionMode.normal;
  post_enabled = false;
  params = "";
  cron_expr = "0 0 2 * * *";
  is_enabled = true;
  misfire_policy = MisfirePolicy.once;
  block_policy = BlockPolicy.discard;
  max_retries = 2;
  retry_interval_seconds = 10;
  timeout_seconds = 600;
  next_trigger_at = some 100;
}

abbrev tables : Tables
tables = record { jobs = nightly ∷ []; instances = []; groups = 3 ∷ [] }

abbrev env_at : ℕ → TriggerEnv
env_at now = record {
  slot = none;
  fault = λ _. none;
  next_id = 7;
  database_now = now;
  now = now;
  commit = done;
}

abbrev encode : ExecutionSnapshot → Snapshot
encode c = c.params

-- A grammar whose schedules fire every 50 units.
abbrev grammar : Grammar
grammar = record {
  trim_space = λ text. text;
  valid_string = λ _. true;
  contains_nul = λ _. false;
  rune_count = λ _. 11;
  field_count = λ _. 6;
  has_prefix = λ _ _. false;
  parser = λ _. some (λ t. t + 50);
}

abbrev params_of : Snapshot → Option String
params_of text = some text

abbrev by_hand : ManualTrigger
by_hand = record {
  job_id = 2;
  request_id = 40;
  params_overridden = true;
  params = "full";
  operator_id = 1;
}

abbrev made : AutomaticResult
made = record { instance_id = 7; created = true; reason = created }

abbrev after_manual : Tables
after_manual = (trigger_manual encode params_of grammar (env_at 90) by_hand tables).0

trigger_manual_again_example :
    trigger_manual encode params_of grammar (env_at 95) by_hand after_manual
    ≡ (after_manual, value 7, none)
unfolding trigger_manual normalize_params manual_body lock create_manual available_group available
    active replay commit find_manual has_active insert valid_identity conflicts snapshot_row
    same_identity
trigger_manual_again_example =
    trigger_manual_again encode params_of (λ _. refl) grammar (env_at 90) (env_at 95) by_hand tables
      after_manual 7 (some 7) refl refl refl refl refl

abbrev after_automatic : Tables
after_automatic = (trigger_automatic encode grammar (env_at 101) 2 tables).0

trigger_automatic-Call_example :
    Call encode grammar
      (env_at 101)
      2
      tables
      (trigger_automatic encode grammar (env_at 101) 2 tables)
trigger_automatic-Call_example = trigger_automatic-Call encode grammar (env_at 101) 2 tables

trigger_automatic_again_example :
    trigger_automatic encode grammar (env_at 140) 2 after_automatic
    ≡ (after_automatic, value (skipped not_due), none)
unfolding trigger_automatic next parse occurrence automatic_body automatic_locked automatic_due
    decide_round lock advance active is_misfire commit has_active insert valid_identity conflicts
    snapshot_row same_identity
trigger_automatic_again_example =
    trigger_automatic_again encode grammar (env_at 101) (env_at 140) 2 tables after_automatic made
      (some 7) nightly 151 refl refl refl refl refl refl refl refl refl

preview-Previewed_example : Previewed grammar "0 0 2 * * *" 101 (preview grammar "0 0 2 * * *" 101)
preview-Previewed_example = preview-Previewed grammar "0 0 2 * * *" 101

trigger_automatic-IsAdvance_example :
    (r : AutomaticResult) × (t' : Tables) × (trigger_automatic encode grammar (env_at 101) 2 tables
      ≡ (t', value r, hint_of encode grammar r))
    × IsAdvance encode grammar (env_at 101) 2 tables r t'
unfolding next parse occurrence lock
trigger_automatic-IsAdvance_example =
    trigger_automatic-IsAdvance encode grammar (env_at 101) 2 tables nightly 100 151 refl refl
      (λ _. refl) refl refl refl refl refl refl refl
