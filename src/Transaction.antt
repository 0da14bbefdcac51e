-- ===== src/Transaction.antt =====
-- apps/job/internal/repository/transaction.go: NewTransactionRunner's runner over the tables that
-- the repositories of one transaction share. A callback is a program over the open transaction;
-- the environment decides for each of its statements whether it fails (a driver's error, or a
-- Context that ended before or during it) and what the database clock says, and how the commit is
-- answered. Transactions are run one after another: the row locks that a callback takes first keep
-- the writers of the same Instance out.
use dogx.Common.{ℕ, suc, Option, none, some, List}
use dogx.Model.{Time}
use dogx.Model.Task.{JobTask}
use dogx.Model.Instance.{JobInstance}
use dogx.Database.{Fault, Error, driver, Result, ok, err, Reply, done, aborted, unconfirmed}

pub record Db : Type 0 where
  pub instances : List JobInstance
  pub tasks : List JobTask

pub record Env : Type 0 where
  pub fault : ℕ → Option Fault  -- of the n-th statement
  pub clock : ℕ → Time  -- at the n-th statement
  pub commit : Reply

-- The counter numbers the statements.
abbrev pub Tx : Type 0 → Type 0
Tx A = Env → ℕ → Db → Result (A × ℕ × Db)

infixl 5 ◌>>=◌
abbrev pub ◌>>=◌ : {A B : Type 0} → Tx A → (A → Tx B) → Tx B
◌>>=◌ m f env n db = elim (m env n db) [ err e ↦ err e | ok (a, n', db') ↦ f a env n' db' ]

abbrev pub return : {A : Type 0} → A → Tx A
return a env n db = ok (a, n, db)

abbrev pub fail : {A : Type 0} → Error → Tx A
fail e env n db = err e

-- A SELECT, whose error the caller may classify.
abbrev pub query : {A : Type 0} → (Fault → Error) → (Db → A) → Tx A
query classify read env n db = elim (env.fault n) [
  | some f ↦ err (classify f)
  | none ↦ ok (read db, suc n, db)
]

-- A write of the Instances, given its own failure.
abbrev pub write_instances :
    {A : Type 0} → (Option Fault → Time → Db → Result (A × List JobInstance)) → Tx A
write_instances write env n db = elim (write (env.fault n) (env.clock n) db) [
  | err e ↦ err e
  | ok (a, rows) ↦ ok (a, suc n, record db { instances = rows })
]

abbrev pub write_tasks :
    {A : Type 0} → (Option Fault → Time → Db → Result (A × List JobTask)) → Tx A
write_tasks write env n db = elim (write (env.fault n) (env.clock n) db) [
  | err e ↦ err e
  | ok (a, rows) ↦ ok (a, suc n, record db { tasks = rows })
]

-- SELECT clock_timestamp()
unfoldable pub database_time : Tx Time
database_time env n db = elim (env.fault n) [
  | some f ↦ err (driver f)
  | none ↦ ok (env.clock n, suc n, db)
]

-- A callback's error rolls back; only a confirmed commit answers with its value.
unfoldable pub commit_with : {A : Type 0} → Reply → Db → Result (A × ℕ × Db) → Db × Result A
commit_with reply db (err e) = (db, err e)
commit_with done db (ok (a, n, db')) = (db', ok a)
commit_with (aborted f) db (ok (a, n, db')) = (db, err (driver f))
commit_with (unconfirmed f) db (ok (a, n, db')) = (db', err (driver f))

unfoldable pub transact : {A : Type 0} → Tx A → Env → Db → Db × Result A
unfolding commit_with
transact body env db = commit_with env.commit db (body env 0 db)
