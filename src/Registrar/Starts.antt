-- ===== src/Registrar/Starts.antt =====
-- dispatch/registrar.go: what StartOrdinary may answer and leave behind.
use dogx.Common.{
  ℕ, suc, ◌+◌, ◌*◌, ◌≡◌, refl, subst, ◌==◌, is_none, ◌&&◌, ◌||◌, true, false, Option, none, some,
  List, ◌∷◌, arith, Bool-cases, Option-cases, inl, inr, ◌⊎◌,
}
use dogx.Model.{Time, is_zero, second}
use dogx.Model.Task.{JobTask}
use dogx.Model.Instance
use dogx.Model.Instance.{JobInstance}
use dogx.Database.{
  Fault, postgres, SqlState, Error, driver, Result, ok, err, Reply, done, aborted, unconfirmed,
  update, affected, invalid_argument, invalid_facts,
}
use dogx.Database.Updates.{Result-cases}
use dogx.InstanceStore.Writes.{start_execution, accepts_start, started}
use dogx.TaskStore.Start.{insert_ordinary, has_ordinary, new_ordinary}
use dogx.Transaction.{Db, Env, transact, commit_with, database_time}
use dogx.Stop.{find_instance, lock_error}
use dogx.Registrar.{
  ExecutionConfig, RegisteredAttempt, Text, is_sharded, lock_for_execution, decode_config,
  attempt_of, started_attempt, start_task, start_at, start_decoded, start_found, start_ordinary,
}

start_execution-cases :
    (fault : Option Fault) (id : ℕ) (now deadline : Time) (rows : List JobInstance)
    → ((e : Error) × (start_execution fault id now deadline rows ≡ err e))
      ⊎ (start_execution fault id now deadline rows
          ≡ ok (
            affected (accepts_start id) rows == 1,
            update (accepts_start id) (started now deadline) rows,
          ))
unfolding start_execution
start_execution-cases (some f) id now deadline rows = inl (driver f, refl)
start_execution-cases none id now deadline rows = inr refl

insert_ordinary-cases :
    (fault : Option Fault) (next_id id : ℕ) (now : Time) (rows : List JobTask)
    → ((e : Error) × (insert_ordinary fault next_id id now rows ≡ err e))
      ⊎ ((insert_ordinary fault next_id id now rows
            ≡ ok (next_id, new_ordinary next_id id now ∷ rows))
          × (has_ordinary id rows ≡ false))
unfolding insert_ordinary
insert_ordinary-cases fault next_id id now rows = elim (Bool-cases (id == 0 || is_zero now)) [
  | inl z ↦ inl (invalid_argument, ground arith)
  | inr z ↦ elim (Option-cases fault) [
    | inr (f, p) ↦ inl (driver f, ground arith)
    | inl p ↦ elim (Bool-cases (has_ordinary id rows)) [
      | inl h ↦ inl (driver (postgres SqlState.integrity_violation), ground arith)
      | inr h ↦ inr (ground arith, h)
    ]
  ]
]

-- The deadline of a round that starts now.
abbrev pub deadline_of : ExecutionConfig → Time → Time
deadline_of c now = now + c.timeout_seconds * second

-- Both tables after a start: the Instance runs until its deadline, and its one Task is in its first
-- attempt.
abbrev pub started_tables : ℕ → ℕ → ExecutionConfig → Time → Db → Db
started_tables next_id id c now db = record {
  instances = update (accepts_start id) (started now (deadline_of c now)) db.instances;
  tasks = new_ordinary next_id id now ∷ db.tasks;
}

module _ (text : Text) where
  -- What authorises the start of `i`.
  pub record IsStart (next_id : ℕ) (i : JobInstance) (c : ExecutionConfig) (now : Time) (db : Db)
      : Type 0 where
    pub waited : Instance.is_waiting i.status ≡ true
    pub not_started : (i.started_at ≡ none) × (i.deadline_at ≡ none) × (i.finished_at ≡ none)
    pub decoded : decode_config text i.execution_config ≡ ok c
    pub ordinary : is_sharded c.execution_mode ≡ false
    pub one_row : affected (accepts_start i.id) db.instances ≡ 1
    pub first_task : has_ordinary i.id db.tasks ≡ false
    pub task_positive : (next_id == 0) ≡ false

  -- A callback's outcome for the locked row.
  data Body (next_id : ℕ) (i : JobInstance) (db : Db)
      : Result (Option RegisteredAttempt × ℕ × Db) → Type 0 where
    failed : (e : Error) → Body next_id i db (err e)
    skipped : (n : ℕ) → Body next_id i db (ok (none, n, db))
    granted :
        (n : ℕ) (c : ExecutionConfig) (now : Time)
        → IsStart next_id i c now db
        → Body next_id i db (
            ok (
              some (attempt_of i c next_id 1 now (deadline_of c now)),
              n,
              started_tables next_id i.id c now db,
            ))

  module _ (next_id : ℕ) (i : JobInstance) (env : Env) (db : Db)
      (w : Instance.is_waiting i.status ≡ true)
      (t : (i.started_at ≡ none) × (i.deadline_at ≡ none) × (i.finished_at ≡ none))
      (c : ExecutionConfig) (d : decode_config text i.execution_config ≡ ok c)
      (m : is_sharded c.execution_mode ≡ false) where
    task-Body :
        (n : ℕ) (now : Time)
        → affected (accepts_start i.id) db.instances ≡ 1
        → Body next_id i db (
            start_task text next_id i c now (deadline_of c now) true env n (record db {
              instances =
                  update (accepts_start i.id) (started now (deadline_of c now)) db.instances;
            }))
    unfolding start_task started_attempt
    task-Body n now one = elim (insert_ordinary-cases (env.fault n) next_id i.id now db.tasks) [
      | inl (e, p) ↦ subst (Body next_id i db) (ground arith) (failed e)
      | inr (p, h) ↦ elim (Bool-cases (next_id == 0)) [
        | inl z ↦ subst (Body next_id i db) (ground arith) (failed invalid_facts)
        | inr z ↦ subst (Body next_id i db) (ground arith) (
            granted (suc n) c now (record {
              waited = w;
              not_started = t;
              decoded = d;
              ordinary = m;
              one_row = one;
              first_task = h;
              task_positive = z;
            }))
      ]
    ]

    start_at-Body :
        (n : ℕ) (now : Time) → Body next_id i db (start_at text next_id i c now env n db)
    unfolding start_at start_task
    start_at-Body n now = elim (Bool-cases (is_zero now)) [
      | inl z ↦ subst (Body next_id i db) (ground arith) (failed invalid_facts)
      | inr z ↦
          elim (start_execution-cases (env.fault n) i.id now (deadline_of c now) db.instances) [
            | inl (e, p) ↦ subst (Body next_id i db) (ground arith) (failed e)
            | inr p ↦ elim (Bool-cases (affected (accepts_start i.id) db.instances == 1)) [
              | inl one ↦
                  subst (Body next_id i db) (ground arith) (task-Body (suc n) now (ground arith))
              | inr other ↦ subst (Body next_id i db) (ground arith) (failed invalid_facts)
            ]
          ]
    ]

  module _ (next_id : ℕ) (i : JobInstance) (env : Env) (db : Db)
      (w : Instance.is_waiting i.status ≡ true)
      (t : (i.started_at ≡ none) × (i.deadline_at ≡ none) × (i.finished_at ≡ none)) where
    start_decoded-Body :
        (n : ℕ)
        → Body next_id i db
            (start_decoded text next_id i (decode_config text i.execution_config) env n db)
    unfolding start_decoded database_time
    start_decoded-Body n = elim (Result-cases (decode_config text i.execution_config)) [
      | inr (e, d) ↦ subst (Body next_id i db) (ground arith) (failed e)
      | inl (c, d) ↦ elim (Bool-cases (is_sharded c.execution_mode)) [
        | inl m ↦ subst (Body next_id i db) (ground arith) (skipped n)
        | inr m ↦ elim (Bool-cases (i.job_id == 0 || i.executor_group_id == 0)) [
          | inl bad ↦ subst (Body next_id i db) (ground arith) (failed invalid_facts)
          | inr good ↦ elim (Option-cases (env.fault n)) [
            | inr (f, p) ↦ subst (Body next_id i db) (ground arith) (failed (driver f))
            | inl p ↦
                subst (Body next_id i db) (ground arith)
                  (start_at-Body next_id i env db w t c d m (suc n) (env.clock n))
          ]
        ]
      ]
    ]

  start_found-Body :
      (next_id id : ℕ) (i : JobInstance) (env : Env) (n : ℕ) (db : Db)
      → Body next_id i db (start_found text next_id id (some i) env n db)
  unfolding start_found
  start_found-Body next_id id i env n db = elim (Bool-cases (Instance.is_waiting i.status)) [
    | inr w ↦ subst (Body next_id i db) (ground arith) (skipped n)
    | inl w ↦
        elim (Bool-cases
          (i.id == id && is_none i.started_at && is_none i.deadline_at && is_none i.finished_at)) [
            | inr bad ↦ subst (Body next_id i db) (ground arith) (failed invalid_facts)
            | inl good ↦
                subst (Body next_id i db) (ground arith) (
                  start_decoded-Body next_id i env db w (ground arith, ground arith, ground arith)
                    n)
          ]
  ]

  -- The call's answer and the tables after it: an error and no change, nothing to start and no change,
  -- both tables changed and the attempt's permission, or an error that hides one of the last two,
  -- since the confirmation of the commit was lost.
  pub data StartAnswer (next_id id : ℕ) (db : Db)
      : Db × Result (Option RegisteredAttempt) → Type 0 where
    refused : (e : Error) → StartAnswer next_id id db (db, err e)
    nothing : StartAnswer next_id id db (db, ok none)
    permitted :
        (i : JobInstance) (c : ExecutionConfig) (now : Time)
        → find_instance id db.instances ≡ some i
        → IsStart next_id i c now db
        → StartAnswer next_id id db (
          started_tables next_id i.id c now db,
          ok (some (attempt_of i c next_id 1 now (deadline_of c now))),
        )
    lost :
        (f : Fault) (a : Option RegisteredAttempt) (db' : Db)
        → StartAnswer next_id id db (db', ok a)
        → StartAnswer next_id id db (db', err (driver f))

  commit-StartAnswer :
      (next_id id : ℕ) (i : JobInstance) (db : Db) (reply : Reply)
      (r : Result (Option RegisteredAttempt × ℕ × Db))
      → find_instance id db.instances ≡ some i
      → Body next_id i db r
      → StartAnswer next_id id db (commit_with reply db r)
  unfolding commit_with
  commit-StartAnswer next_id id i db reply _ l (failed e) = refused e
  commit-StartAnswer next_id id i db done _ l (skipped n) = nothing
  commit-StartAnswer next_id id i db (aborted f) _ l (skipped n) = refused (driver f)
  commit-StartAnswer next_id id i db (unconfirmed f) _ l (skipped n) = lost f none db nothing
  commit-StartAnswer next_id id i db done _ l (granted n c now s) = permitted i c now l s
  commit-StartAnswer next_id id i db (aborted f) _ l (granted n c now s) = refused (driver f)
  commit-StartAnswer next_id id i db (unconfirmed f) _ l (granted n c now s) =
      lost f _ _ (permitted i c now l s)

  commit-missing :
      (next_id id : ℕ) (db : Db) (reply : Reply)
      → StartAnswer next_id id db
          (commit_with {A = Option RegisteredAttempt} reply db (ok (none, 1, db)))
  unfolding commit_with
  commit-missing next_id id db done = nothing
  commit-missing next_id id db (aborted f) = refused (driver f)
  commit-missing next_id id db (unconfirmed f) = lost f none db nothing

  -- A first start, whatever the database answers, ends in one of these ways: an error and unchanged
  -- tables; no attempt and unchanged tables; an attempt, where the found Instance was waiting with no
  -- times, its configuration is decoded and not sharded, it had no ordinary Task, and both tables have
  -- changed together; or an error that hides one of the last two, when the confirmation of the commit
  -- was lost.
  pub start_ordinary-StartAnswer :
      (next_id id : ℕ) (env : Env) (db : Db)
      → StartAnswer next_id id db (start_ordinary text next_id id env db)
  unfolding start_ordinary lock_for_execution transact start_found
  start_ordinary-StartAnswer next_id id env db = elim (Bool-cases (id == 0)) [
    | inl z ↦ subst (StartAnswer next_id id db) (ground arith) (refused invalid_argument)
    | inr z ↦ elim (Option-cases (env.fault 0)) [
      | inr (f, p) ↦
          subst (StartAnswer next_id id db) (unfold commit_with in ground arith)
            (refused (lock_error true f))
      | inl p ↦ elim (Option-cases (find_instance id db.instances)) [
        | inl l ↦
            subst (StartAnswer next_id id db) (ground arith)
              (commit-missing next_id id db env.commit)
        | inr (i, l) ↦ subst (StartAnswer next_id id db) (ground arith) (
            commit-StartAnswer next_id id i db env.commit
              (start_found text next_id id (some i) env 1 db) l
              (start_found-Body next_id id i env 1 db))
      ]
    ]
  ]
