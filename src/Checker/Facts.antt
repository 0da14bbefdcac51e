-- ===== src/Checker/Facts.antt =====
-- instancecheck/checker.go: the ways in which a check ends, each with the facts that lead to it.
use dogx.Common.{ℕ, ◌≡◌, ◌≤◌, ◌<◌, ◌==◌, Bool, true, false, Option, none, some, [], ◌⊎◌}
use dogx.Model.{Time, is_zero, Snapshot}
use dogx.Model.Task.{TaskStatus}
use dogx.Model.Instance
use dogx.Model.Instance.{InstanceStatus}
use dogx.Database.{
  Error, driver, expired, invalid_argument, invalid_facts, invalid_config, ok, err, pool,
}
use dogx.InstanceStore.Writes.{complete}
use dogx.Transaction.{Db}
use dogx.Stop.{request_stop}
use dogx.Checker.{
  skipped, not_ready, stopping, terminal, InstanceCompletion, CheckConfig, CheckEnv, Checked,
  resume_events, timeout_answer, completion_answer,
}
use dogx.Checker.Configs.{IsSharded, IsOrdinary}

-- A Task that leaves its ordinary round open.
abbrev pub is_open : TaskStatus → Bool
is_open TaskStatus.waiting = true
is_open TaskStatus.running = true
is_open TaskStatus.retry_waiting = true
is_open TaskStatus.canceled = true
is_open _ = false

module _ (unmarshal : Snapshot → Option CheckConfig) (with_stop : Bool) (env : CheckEnv)
    (id : ℕ) where
  -- The facts that were read are those of the Instance asked for.
  pub record IsFound (f : InstanceCompletion) : Type 0 where
    pub named : (id == 0) ≡ false
    pub in_time : env.ended ≡ false
    pub facts : env.facts ≡ ok (some f)
    pub same : (f.id == id) ≡ true

  -- A running ordinary round.
  pub record IsRound (f : InstanceCompletion) : Type 0 where
    pub found : IsFound f
    pub running : Instance.is_running f.status ≡ true
    pub ordinary : IsOrdinary (unmarshal f.execution_config)

  pub record HasTask (f : InstanceCompletion) (s : TaskStatus) : Type 0 where
    pub task : ℕ
    pub is_task : f.task_id ≡ some task
    pub positive : (task == 0) ≡ false
    pub status : f.task_status ≡ some s

  -- No Task yet, or one that is not final.
  abbrev pub IsOpen : InstanceCompletion → Type 0
  IsOpen f = (f.task_id ≡ none) ⊎ ((s : TaskStatus) × HasTask f s × (is_open s ≡ true))

  -- Stops are enabled, and the round's deadline is looked at before the Context ends.
  pub record IsTimed (f : InstanceCompletion) (deadline : Time) : Type 0 where
    pub stops : with_stop ≡ true
    pub deadline_set : f.deadline_at ≡ some deadline
    pub positive_deadline : is_zero deadline ≡ false
    pub goes_on : env.ended_late ≡ false

  -- The deadline was not looked at, or not reached.
  abbrev pub IsEarly : InstanceCompletion → Type 0
  IsEarly f =
      (with_stop ≡ false)
      ⊎ ((deadline : Time) × (now : Time) × IsTimed f deadline
          × (env.clock ≡ ok now)
          × (is_zero now ≡ false)
          × (now < deadline))

  -- An ID is given and the Context has not ended.
  abbrev pub IsAsked : Type 0
  IsAsked = ((id == 0) ≡ false) × (env.ended ≡ false)

  pub data Fails : Error → Type 0 where
    no_id : (id == 0) ≡ true → Fails invalid_argument
    context_ended : (id == 0) ≡ false → env.ended ≡ true → Fails (driver expired)
    unread : (e : Error) → IsAsked → env.facts ≡ err e → Fails e
    other_row :
        (f : InstanceCompletion)
        → IsAsked
        → env.facts ≡ ok (some f)
        → (f.id == id) ≡ false
        → Fails invalid_facts
    odd_status :
        (f : InstanceCompletion) (n : ℕ)
        → IsFound f
        → f.status ≡ InstanceStatus.unknown n
        → Fails invalid_facts
    odd_config :
        (f : InstanceCompletion)
        → IsFound f
        → Instance.is_running f.status ≡ true
        → ¬ IsSharded (unmarshal f.execution_config)
        → ¬ IsOrdinary (unmarshal f.execution_config)
        → Fails invalid_config
    odd_task :
        (f : InstanceCompletion) (task : ℕ)
        → IsRound f
        → f.task_id ≡ some task
        → (f.task_status ≡ none)
          ⊎ (((task == 0) ≡ true) ⊎ ((n : ℕ) × (f.task_status ≡ some (TaskStatus.unknown n))))
        → Fails invalid_facts
    no_deadline :
        (f : InstanceCompletion)
        → IsRound f
        → IsOpen f
        → with_stop ≡ true
        → (f.deadline_at ≡ none) ⊎ (f.deadline_at ≡ some 0)
        → Fails invalid_facts
    late_context :
        (f : InstanceCompletion)
        → IsRound f
        → IsOpen f
        → with_stop ≡ true
        → env.ended_late ≡ true
        → Fails (driver expired)
    no_clock :
        (f : InstanceCompletion) (deadline : Time) (e : Error)
        → IsRound f
        → IsOpen f
        → IsTimed f deadline
        → env.clock ≡ err e
        → Fails e
    zero_clock :
        (f : InstanceCompletion) (deadline : Time)
        → IsRound f
        → IsOpen f
        → IsTimed f deadline
        → env.clock ≡ ok 0
        → Fails invalid_facts

  -- A check's end.
  pub data Ends (db : Db) : Checked → Type 0 where
    failed : (e : Error) → Fails e → Ends db (db, err e, [])
    missing : IsAsked → env.facts ≡ ok none → Ends db (db, ok skipped, [])
    not_started :
        (f : InstanceCompletion)
        → IsFound f
        → f.status ≡ InstanceStatus.waiting
        → Ends db (db, ok skipped, [])
    sharded :
        (f : InstanceCompletion)
        → IsFound f
        → Instance.is_running f.status ≡ true
        → IsSharded (unmarshal f.execution_config)
        → Ends db (db, ok skipped, [])
    ended :
        (f : InstanceCompletion)
        → IsFound f
        → Instance.is_terminal f.status ≡ true
        → Ends db (db, ok terminal, [])
    resumes :
        (f : InstanceCompletion)
        → IsFound f
        → Instance.is_stopping f.status ≡ true
        → Ends db (db, ok stopping, resume_events with_stop id)
    unready :
        (f : InstanceCompletion) → IsRound f → IsOpen f → IsEarly f → Ends db (db, ok not_ready, [])
    times_out :
        (f : InstanceCompletion) (deadline now : Time)
        → IsRound f
        → IsOpen f
        → IsTimed f deadline
        → env.clock ≡ ok now
        → is_zero now ≡ false
        → deadline ≤ now
        → Ends db (timeout_answer id (request_stop true id env.timeout (env.others db)))
    succeeds :
        (f : InstanceCompletion)
        → IsRound f
        → HasTask f TaskStatus.succeeded
        → Ends db (
            completion_answer (env.others db) (
              complete pool env.reply env.completed_at id InstanceStatus.succeeded f.result_summary
                (env.others db).instances))
    fails :
        (f : InstanceCompletion)
        → IsRound f
        → HasTask f TaskStatus.failed
        → Ends db (
            completion_answer (env.others db) (
              complete pool env.reply env.completed_at id InstanceStatus.failed f.result_summary
                (env.others db).instances))
