-- ===== src/StopQueue/Turns.antt =====
-- instancestop/queue.go: `process`, one worker's turn of batches for one Instance.
use dogx.Common.{ℕ, zero, suc, ◌+◌, Bool, true, false}
use dogx.Database.{Result, ok, err, driver, expired}
use dogx.Transaction.{Db, Env}
use dogx.Stop.Batch.{process_batch}

-- What the environment decides for a turn's batches: whether the Context has ended before the k-th,
-- what the database answers in it, and whether the time allowance is over after it.
pub record TurnEnv : Type 0 where
  pub ended : ℕ → Bool
  pub batch : ℕ → Env
  pub late : ℕ → Bool

-- `k` counts the batches so far, of which at most `n` more are run.
unfoldable pub process : ℕ → ℕ → ℕ → TurnEnv → ℕ → Db → Db × Result Bool
process limit id zero env k db = (db, ok true)
process limit id (suc n) env k db = elim (env.ended k) [
  | true ↦ (db, err (driver expired))
  | false ↦
      let r = process_batch limit id (env.batch k) db in
      elim (r.1) [
        | err e ↦ (r.0, err e)
        | ok b ↦ elim (b.more) [
          | false ↦ (r.0, ok false)
          | true ↦ elim (env.late k) [
            | true ↦ (r.0, ok true)
            | false ↦ process limit id n env (k + 1) r.0
          ]
        ]
      ]
]
