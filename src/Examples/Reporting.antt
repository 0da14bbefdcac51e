-- ===== src/Examples/Reporting.antt =====
-- The saving of a result at concrete inputs: a success and, on the same tables, a late report.
use dogx.Common.{ℕ, ◌≡◌, ◌⊎◌, refl, true, false, none, some, [], ◌∷◌}
use dogx.Model.Instance.{JobInstance, InstanceStatus}
use dogx.Database.{done}
use dogx.Transaction.{Db}
use dogx.TaskStore.Start.{new_ordinary}
use dogx.TaskStore.Outcome.{
  accepts_result, resulted, save_result, valid_result_write, valid_result_status,
}
use dogx.TaskStore.Targets.{find_result_target}
use dogx.ResultSaver.{
  Outcome, Report, Formats, SaveEnv, saved, stale_attempt, save, save_identified, save_found,
  save_running, written, write_answer, result_write, outcome_write,
}
use dogx.ResultSaver.Ways.{AnswerOf}
use dogx.ResultSaver.Answers.{save-AnswerOf}
use dogx.ResultSaver.Saves.{Stored, save-Stored, save-unchanged}
use dogx.Examples.Settling.{two_retries}
use dogx.Examples.Stopping.{stopped_instance}

abbrev parent_instance : JobInstance
parent_instance = record stopped_instance {
  status = InstanceStatus.running;
  started_at = some 5;
  deadline_at = some 900;
  end_reason = none;
}

abbrev tables : Db
tables = record { instances = parent_instance ∷ []; tasks = new_ordinary 9 4 5 ∷ [] }

abbrev formats : Formats
formats = record {
  uuid4 = λ _. some 77;
  is_uuid4 = λ _. true;
  valid_text = λ _. true;
  valid_json = λ _. true;
  unmarshal = two_retries;
  is_jsonb = λ _. some true;
}

abbrev quiet : SaveEnv
quiet = record {
  ended = false;
  lookup = none;
  others = λ db. db;
  reply = done;
  processed_at = 50;
  ended_write = false;
  probe = none;
}

abbrev report_of : ℕ → Report
report_of attempt = record {
  group_id = 3;
  job_id = 2;
  instance_id = 4;
  task_id = 9;
  attempt_no = attempt;
  executor_instance_id = "77";
  outcome = Outcome.success;
  summary = "done";
  contents = none;
  prepared_items = false;
}

save-AnswerOf_example :
    AnswerOf formats quiet (report_of 1) tables (save formats quiet (report_of 1) tables)
save-AnswerOf_example = save-AnswerOf formats quiet (report_of 1) tables

abbrev saved_tables : Db
saved_tables = (save formats quiet (report_of 1) tables).0

save-Stored_example : Stored formats quiet (report_of 1) tables saved_tables (some 4)
unfolding save save_identified save_found save_running written write_answer result_write
    outcome_write find_result_target save_result valid_result_write valid_result_status
    accepts_result resulted new_ordinary
save-Stored_example =
    save-Stored formats quiet (report_of 1) tables saved_tables (some 4) saved refl

save-unchanged_example : (tables ≡ tables) ⊎ (tables ≡ quiet.others tables)
unfolding save save_identified save_found find_result_target new_ordinary
save-unchanged_example =
    save-unchanged formats quiet (report_of 2) tables tables (some 4) stale_attempt (tt, tt)
      (λ e. cc) refl
