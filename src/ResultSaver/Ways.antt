-- ===== src/ResultSaver/Ways.antt =====
-- taskresult/saver.go: the ways in which Save answers, each with the facts that lead to it.
use dogx.Common.{is_some, ℕ, ◌≡◌, ◌≢◌, ◌⊎◌, Bool, true, false, none, some, List}
use dogx.Model.Task.{JobTask, TaskStatus}
use dogx.Model.Task
use dogx.Database.{Error, Result, ok, err, pool}
use dogx.Transaction.{Db}
use dogx.TaskStore.Outcome.{TaskResultWrite, save_result}
use dogx.TaskStore.Targets.{TaskResultTarget, find_result_target, check_result_data}
use dogx.ResultSaver.{
  Report, Reason, invalid_report, missing_target, ownership_mismatch, stale_attempt, task_closed,
  executor_mismatch, invalid_output, no_match, saved, SaveError, stored_state, unsupported_type,
  ended, lookup_failed, write_failed, probe_failed, Formats, SaveEnv, Answered, finished, discarded,
  kept, write, refused, result_write, is_success, is_data_exception, valid_output, is_other, owns,
  has_identities,
}

module _ (f : Formats) (env : SaveEnv) (r : Report) where
  -- The report's own running attempt, as the lookup finds it.
  pub record IsCurrent (db : Db) (identity : ℕ) (t : TaskResultTarget) : Type 0 where
    pub in_time : env.ended ≡ false
    pub known : has_identities r ≡ true
    pub named : f.uuid4 r.executor_instance_id ≡ some identity
    pub found : find_result_target r.task_id env.lookup db.instances db.tasks ≡ ok (some t)
    pub owned : owns r t ≡ true
    pub attempt : t.attempt_no ≡ r.attempt_no
    pub running : t.status ≡ TaskStatus.running
    pub executor : is_other identity t.executor_instance_id ≡ false
    pub ordinary : Task.is_ordinary t.task_type ≡ true
    pub output : valid_output f r ≡ true

  abbrev pub Found : Db → TaskResultTarget → Type 0
  Found db t = find_result_target r.task_id env.lookup db.instances db.tasks ≡ ok (some t)

  -- The report names the Task, its parent, Job and group as the lookup finds them.
  pub record IsOwned (db : Db) (identity : ℕ) (t : TaskResultTarget) : Type 0 where
    pub in_time : env.ended ≡ false
    pub known : has_identities r ≡ true
    pub named : f.uuid4 r.executor_instance_id ≡ some identity
    pub found : Found db t
    pub task : t.task_id ≡ r.task_id
    pub parent : t.instance_id ≡ r.instance_id
    pub job : t.job_id ≡ r.job_id
    pub group : t.executor_group_id ≡ r.group_id

  -- The report has its identities, and the Context has not ended.
  abbrev pub IsNamed : Type 0
  IsNamed =
      (env.ended ≡ false)
      × (has_identities r ≡ true)
      × ((identity : ℕ) × (f.uuid4 r.executor_instance_id ≡ some identity))

  -- A fault of the report's own.
  pub data Drops (db : Db) : Reason → Type 0 where
    unidentified :
        env.ended ≡ false
        → (has_identities r ≡ false) ⊎ (f.uuid4 r.executor_instance_id ≡ none)
        → Drops db invalid_report
    unknown_task :
        IsNamed
        → find_result_target r.task_id env.lookup db.instances db.tasks ≡ ok none
        → Drops db missing_target
    foreign :
        (t : TaskResultTarget)
        → IsNamed
        → Found db t
        → (t.task_id ≢ r.task_id)
          ⊎ ((t.instance_id ≢ r.instance_id)
              ⊎ ((t.job_id ≢ r.job_id) ⊎ (t.executor_group_id ≢ r.group_id)))
        → Drops db ownership_mismatch
    unfit_output :
        (identity : ℕ) (t : TaskResultTarget)
        → IsOwned db identity t
        → t.attempt_no ≡ r.attempt_no
        → t.status ≡ TaskStatus.running
        → is_other identity t.executor_instance_id ≡ false
        → Task.is_ordinary t.task_type ≡ true
        → valid_output f r ≡ false
        → Drops db invalid_output

  -- The attempt is over: another is registered, the Task does not run, or another executor has it.
  pub data Over (db : Db) (t : TaskResultTarget) : Reason → Type 0 where
    replaced :
        (identity : ℕ)
        → IsOwned db identity t
        → t.attempt_no ≢ r.attempt_no
        → Over db t stale_attempt
    closed :
        (identity : ℕ)
        → IsOwned db identity t
        → t.attempt_no ≡ r.attempt_no
        → Task.is_running t.status ≡ false
        → Over db t task_closed
    taken_over :
        (identity executor : ℕ)
        → IsOwned db identity t
        → t.attempt_no ≡ r.attempt_no
        → t.status ≡ TaskStatus.running
        → t.executor_instance_id ≡ some executor
        → executor ≢ identity
        → Over db t executor_mismatch

  -- An error before any write.
  pub data Unusable (db : Db) : SaveError → Type 0 where
    unread :
        (e : Error)
        → IsNamed
        → find_result_target r.task_id env.lookup db.instances db.tasks ≡ err e
        → Unusable db (lookup_failed e)
    odd_status :
        (identity : ℕ) (t : TaskResultTarget) (n : ℕ)
        → IsOwned db identity t
        → t.attempt_no ≡ r.attempt_no
        → t.status ≡ TaskStatus.unknown n
        → Unusable db stored_state
    odd_type :
        (identity : ℕ) (t : TaskResultTarget)
        → IsOwned db identity t
        → t.attempt_no ≡ r.attempt_no
        → t.status ≡ TaskStatus.running
        → is_other identity t.executor_instance_id ≡ false
        → Task.is_ordinary t.task_type ≡ false
        → Unusable db unsupported_type
    undecided :
        (identity : ℕ) (t : TaskResultTarget) (e : SaveError)
        → IsCurrent db identity t
        → result_write f.unmarshal t r identity ≡ refused e
        → Unusable db e

  abbrev pub attempted : Db → TaskResultWrite → List JobTask × Result Bool
  attempted db w = save_result f.is_uuid4 pool env.reply env.processed_at w (env.others db).tasks

  -- The tables after the write.
  abbrev pub after : Db → TaskResultWrite → Db
  after db w = record (env.others db) { tasks = (attempted db w).0 }

  -- The contents of a result are probed: the write of a success that carries contents was refused as a
  -- data exception, and the Context has not ended.
  pub record IsProbed (e : Error) : Type 0 where
    pub in_time : env.ended_write ≡ false
    pub success : is_success r.outcome ≡ true
    pub contents : is_some r.contents ≡ true
    pub exception : is_data_exception e ≡ true

  -- Which error is kept after a write that failed with `e`.
  pub data Unsure (e : Error) : SaveError → Type 0 where
    unprobed : ¬ IsProbed e → Unsure e (write_failed e)
    sound_contents :
        IsProbed e
        → check_result_data f.is_jsonb r.contents env.probe ≡ ok true
        → Unsure e (write_failed e)
    no_probe :
        (p : Error)
        → IsProbed e
        → check_result_data f.is_jsonb r.contents env.probe ≡ err p
        → Unsure e (probe_failed e p)

  pub data AnswerOf (db : Db) : Answered → Type 0 where
    too_late : env.ended ≡ true → AnswerOf db (kept db ended)
    dropped : (reason : Reason) → Drops db reason → AnswerOf db (discarded db reason)
    over :
        (t : TaskResultTarget) (reason : Reason)
        → Over db t reason
        → AnswerOf db (finished db t.instance_id false reason)
    unusable : (e : SaveError) → Unusable db e → AnswerOf db (kept db e)
    confirmed :
        (identity : ℕ) (t : TaskResultTarget) (w : TaskResultWrite)
        → IsCurrent db identity t
        → result_write f.unmarshal t r identity ≡ write w
        → (attempted db w).1 ≡ ok true
        → AnswerOf db (finished (after db w) t.instance_id true saved)
    missed :
        (identity : ℕ) (t : TaskResultTarget) (w : TaskResultWrite)
        → IsCurrent db identity t
        → result_write f.unmarshal t r identity ≡ write w
        → (attempted db w).1 ≡ ok false
        → AnswerOf db (finished (after db w) t.instance_id false no_match)
    unfit :
        (identity : ℕ) (t : TaskResultTarget) (w : TaskResultWrite) (e : Error)
        → IsCurrent db identity t
        → result_write f.unmarshal t r identity ≡ write w
        → (attempted db w).1 ≡ err e
        → IsProbed e
        → check_result_data f.is_jsonb r.contents env.probe ≡ ok false
        → AnswerOf db (discarded (after db w) invalid_output)
    unsure :
        (identity : ℕ) (t : TaskResultTarget) (w : TaskResultWrite) (e : Error) (s : SaveError)
        → IsCurrent db identity t
        → result_write f.unmarshal t r identity ≡ write w
        → (attempted db w).1 ≡ err e
        → Unsure e s
        → AnswerOf db (kept (after db w) s)
