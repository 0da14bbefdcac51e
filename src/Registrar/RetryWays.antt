-- ===== src/Registrar/RetryWays.antt =====
-- dispatch/registrar.go: the ways in which RetryOrdinary ends, each with the facts that lead to it.
use dogx.Common.{
  ℕ, ◌<◌, ◌≤◌, ◌≡◌, ◌==◌, if◌then◌else◌, ◌||◌, not, Bool, true, false, Option, none, some,
}
use dogx.Model.{Time, is_zero}
use dogx.Model.Instance
use dogx.Model.Instance.{JobInstance}
use dogx.Database.{
  Fault, Error, driver, Result, ok, err, done, aborted, unconfirmed, update, affected,
  invalid_argument, invalid_facts, in_transaction,
}
use dogx.TaskStore.Start.{RegisteredTask, register_ordinary_retry, accepts_registration, registered}
use dogx.Transaction.{Db, Env}
use dogx.Stop.{find_instance, lock_error}
use dogx.Registrar.{ExecutionConfig, RegisteredAttempt, Text, is_sharded, decode_config, attempt_of}
use dogx.Registrar.Retry.{RetryCandidate, registration, valid_registered, valid_running}

module _ (text : Text) (r : RetryCandidate) (env : Env) (db : Db) where
  -- The database's time under the lock.
  abbrev now : Time
  now = env.clock 1

  -- The candidate's parent, as the lock finds it, runs.
  pub record IsParent (i : JobInstance) : Type 0 where
    pub found : find_instance r.instance_id db.instances ≡ some i
    pub same : (i.id == r.instance_id) ≡ true
    pub runs : Instance.is_running i.status ≡ true

  -- The parent runs with valid times, before its deadline.
  pub record IsInTime (i : JobInstance) (deadline : Time) : Type 0 where
    pub parent : IsParent i
    pub times_valid : valid_running i ≡ true
    pub deadline_set : i.deadline_at ≡ some deadline
    pub timed : env.fault 1 ≡ none
    pub before : now < deadline

  -- The parent is in time and its configuration is decoded.
  pub record IsDecoded (i : JobInstance) (deadline : Time) (c : ExecutionConfig) : Type 0 where
    pub in_time : IsInTime i deadline
    pub decoded : decode_config text i.execution_config ≡ ok c

  -- What authorises another attempt of the candidate.
  pub record IsRetry (i : JobInstance) (c : ExecutionConfig) (deadline : Time) (t : RegisteredTask)
      : Type 0 where
    pub decided : IsDecoded i deadline c
    pub ordinary : is_sharded c.execution_mode ≡ false
    pub one_row : affected (accepts_registration (registration r c now)) db.tasks ≡ 1
    pub next_attempt : valid_registered r c now t ≡ true

  -- The tables with the candidate's next attempt registered.
  abbrev pub retried_tables : ExecutionConfig → Db
  retried_tables c = record db {
    tasks =
        update (accepts_registration (registration r c now)) (registered (registration r c now))
          db.tasks;
  }

  -- Why there is no attempt, and whether the parent is to be checked: it is not found, or neither runs
  -- nor stops; it stops; the database's time under the lock has reached its deadline; or it runs in
  -- time and is sharded, or has no Task to which the candidate applies.
  pub data NoAttempt : Bool → Type 0 where
    missing : find_instance r.instance_id db.instances ≡ none → NoAttempt false
    idle :
        (i : JobInstance)
        → find_instance r.instance_id db.instances ≡ some i
        → Instance.is_running i.status ≡ false
        → Instance.is_stopping i.status ≡ false
        → NoAttempt false
    stopping :
        (i : JobInstance)
        → find_instance r.instance_id db.instances ≡ some i
        → Instance.is_stopping i.status ≡ true
        → NoAttempt true
    expired :
        (i : JobInstance) (deadline : Time)
        → IsParent i
        → valid_running i ≡ true
        → i.deadline_at ≡ some deadline
        → env.fault 1 ≡ none
        → deadline ≤ now
        → NoAttempt true
    sharded :
        (i : JobInstance) (deadline : Time) (c : ExecutionConfig)
        → IsDecoded i deadline c
        → is_sharded c.execution_mode ≡ true
        → NoAttempt false
    not_due :
        (i : JobInstance) (deadline : Time) (c : ExecutionConfig)
        → IsDecoded i deadline c
        → is_sharded c.execution_mode ≡ false
        → affected (accepts_registration (registration r c now)) db.tasks ≡ 0
        → NoAttempt false

  -- Why the call fails before its commit.
  pub data Fails : Error → Type 0 where
    no_identity :
        (r.task_id == 0 || r.instance_id == 0 || r.attempt_no == 0) ≡ true → Fails invalid_argument
    unlocked : (f : Fault) → env.fault 0 ≡ some f → Fails (lock_error true f)
    other_row :
        (i : JobInstance)
        → find_instance r.instance_id db.instances ≡ some i
        → (i.id == r.instance_id) ≡ false
        → Fails invalid_facts
    no_clock : (i : JobInstance) (f : Fault) → IsParent i → env.fault 1 ≡ some f → Fails (driver f)
    odd_times :
        (i : JobInstance)
        → IsParent i
        → (is_zero now || not (valid_running i)) ≡ true
        → Fails invalid_facts
    no_deadline : (i : JobInstance) → IsParent i → i.deadline_at ≡ none → Fails invalid_facts
    odd_config :
        (i : JobInstance) (deadline : Time) (e : Error)
        → IsInTime i deadline
        → decode_config text i.execution_config ≡ err e
        → Fails e
    unregistered :
        (i : JobInstance) (deadline : Time) (c : ExecutionConfig) (e : Error)
        → IsDecoded i deadline c
        → is_sharded c.execution_mode ≡ false
        → register_ordinary_retry in_transaction (env.fault 2) (registration r c now) db.tasks
          ≡ err e
        → Fails e
    odd_row :
        (i : JobInstance) (deadline : Time) (c : ExecutionConfig) (t : RegisteredTask)
        → IsDecoded i deadline c
        → is_sharded c.execution_mode ≡ false
        → affected (accepts_registration (registration r c now)) db.tasks ≡ 1
        → valid_registered r c now t ≡ false
        → Fails invalid_facts

  -- The candidate has its identities, and the lock's read is answered.
  abbrev pub IsLocked : Type 0
  IsLocked =
      ((r.task_id == 0 || r.instance_id == 0 || r.attempt_no == 0) ≡ false) × (env.fault 0 ≡ none)

  -- What a callback that succeeds leads to once it is committed: the tables, the attempt, the hint.
  pub data Committed : Db → Option RegisteredAttempt → Option ℕ → Type 0 where
    nothing :
        (check : Bool)
        → IsLocked
        → NoAttempt check
        → Committed db none (if check then some r.instance_id else none)
    permitted :
        (i : JobInstance) (c : ExecutionConfig) (deadline : Time) (t : RegisteredTask)
        → IsLocked
        → IsRetry i c deadline t
        → Committed
            (retried_tables c)
            (some (attempt_of i c t.task_id t.attempt_no t.registered_at deadline))
            none

  -- The call's answer, its hint and the tables after it: an error before the commit, no hint and no
  -- change; what the committed callback leads to; the commit's error with no hint and no change; or
  -- its error with no hint over the tables of a commit whose confirmation was lost.
  pub data RetryAnswer : Db × Result (Option RegisteredAttempt) × Option ℕ → Type 0 where
    refused : (e : Error) → Fails e → RetryAnswer (db, err e, none)
    answered :
        (db' : Db) (a : Option RegisteredAttempt) (h : Option ℕ)
        → env.commit ≡ done
        → Committed db' a h
        → RetryAnswer (db', ok a, h)
    not_committed :
        (f : Fault) → IsLocked → env.commit ≡ aborted f → RetryAnswer (db, err (driver f), none)
    lost :
        (f : Fault) (db' : Db) (a : Option RegisteredAttempt) (h : Option ℕ)
        → env.commit ≡ unconfirmed f
        → Committed db' a h
        → RetryAnswer (db', err (driver f), none)
