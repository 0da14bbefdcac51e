-- ===== src/Registrar/Retries.antt =====
-- dispatch/registrar.go: what RetryOrdinary may answer and leave behind.
use dogx.Common.{ℕ, Bool, false, none, some}
use dogx.Model.{Time}
use dogx.Model.Instance
use dogx.Model.Instance.{JobInstance}
use dogx.Database.{Error, Result, ok, err}
use dogx.TaskStore.Start.{RegisteredTask}
use dogx.Transaction.{Db, Env}
use dogx.Registrar.{ExecutionConfig, Text, attempt_of}
use dogx.Registrar.Retry.{RetryCandidate, Granted}
use dogx.Registrar.Registers.{Registers}
use dogx.Registrar.RetryWays.{IsRetry, retried_tables, NoAttempt, Fails}

module _ (text : Text) (r : RetryCandidate) (env : Env) (db : Db) where
  -- A callback's outcome.
  data Body : Result (Granted × ℕ × Db) → Type 0 where
    failed : (e : Error) → Fails text r env db e → Body (err e)
    skipped :
        (n : ℕ) (check : Bool) → NoAttempt text r env db check → Body (ok ((none, check), n, db))
    granted :
        (n : ℕ) (i : JobInstance) (c : ExecutionConfig) (deadline : Time) (t : RegisteredTask)
        → IsRetry text r env db i c deadline t
        → Body (
            ok (
              (some (attempt_of i c t.task_id t.attempt_no t.registered_at deadline), false),
              n,
              retried_tables text r env db c,
            ))
