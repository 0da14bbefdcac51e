-- ===== src/StopQueue/Converges.antt =====
-- instancestop: a turn over a database that answers carries a stop to its end.
use Prim.Native.String.{String}
use dogx.Common.{
  ℕ, zero, suc, ◌+◌, ◌<◌, ◌≡◌, refl, sym, ◌∙◌, ap, subst, ◌==◌, ==_refl, Bool, true, false, some,
  List, [], ◌∷◌, length, map, arith, Bool-cases, inl, inr,
}
use dogx.Common.Sort.{DistinctIds}
use dogx.Model.{Time, EndReason}
use dogx.Model.Task.{JobTask}
use dogx.Model.Instance
use dogx.Model.Instance.{JobInstance, InstanceStatus}
use dogx.Database.{Result, ok, done, update, affected, elem}
use dogx.Database.Updates.{Unique, away, affected-zero, Rowwise, Rowwise-refl}
use dogx.StopQueue.Carried.{Carried, kept, Stopped, trans_Carried, update-Carried, all_Stopped}
use dogx.InstanceStore.Writes.{
  finished, accepts_finish, stop_target, has_unfinished, same_reason, reason_is,
}
use dogx.TaskStore.Outcome.{TaskCancellation, is_stop_reason, accepts_cancellation, cancelled}
use dogx.Transaction.{Db, Env, commit_with}
use dogx.Stop.{find_instance}
use dogx.Stop.Batch.{
  BatchResult, task_id, stop_outcome, list_unfinished_ids, valid_ordered_ids, process_ids,
  process_batch,
}
use dogx.Stop.Children.{
  unfinished, unfinished-cancelled, cancelled-le-length, ids_positive, ids_valid,
  length-list_unfinished, some_cancelled,
}
use dogx.StopQueue.Quiet.{
  IsQuiet, IsStopped, outcome_of, batch_ids, finish_ids, cancel_ids, write_of,
}
use dogx.StopQueue.Turns.{TurnEnv, process}

has_unfinished-zero :
    (id : ℕ) (ts : List JobTask) → unfinished id ts ≡ 0 → has_unfinished id ts ≡ false
unfolding has_unfinished
has_unfinished-zero id [] h = refl
has_unfinished-zero id (t ∷ ts) h = ground (arith, has_unfinished-zero id ts)

-- An update for the ID of a found row changes that row only.
module _ (accepts : JobInstance → Bool) (change : JobInstance → JobInstance) (i : JobInstance)
    (only : (j : JobInstance) → accepts j ≡ true → j.id ≡ i.id) (accepted : accepts i ≡ true)
    (same : (change i).id ≡ i.id) where
  affected_one :
      (rows : List JobInstance)
      → Unique (λ (j : JobInstance). j.id) rows
      → find_instance i.id rows ≡ some i
      → affected accepts rows ≡ 1
  unfolding find_instance
  affected_one [] u f = cc
  affected_one (j ∷ js) u f = elim (Bool-cases (j.id == i.id)) [
    | inl e ↦
        let p : j ≡ i = ground arith in
        let a : accepts j ≡ true = ap accepts p ∙ accepted in
        rw a (
          ap suc (
            affected-zero accepts js
              (away (λ (j : JobInstance). j.id) i.id accepts only j (ground arith) js u.0)))
    | inr e ↦ elim (Bool-cases (accepts j)) [
      | inl a ↦ absurd (let o = only j a in ground arith)
      | inr a ↦ rw a (affected_one js u.1 (rw e at f))
    ]
  ]

  find-update :
      (rows : List JobInstance)
      → find_instance i.id rows ≡ some i
      → find_instance i.id (update accepts change rows) ≡ some (change i)
  unfolding find_instance
  find-update [] f = cc
  find-update (j ∷ js) f = elim (Bool-cases (j.id == i.id)) [
    | inl e ↦
        let p : j ≡ i = ground arith in
        let a : accepts j ≡ true = ap accepts p ∙ accepted in
        let c : change j ≡ change i = ap change p in rw a (ground (arith, c, same, ==_refl i.id))
    | inr e ↦ elim (Bool-cases (accepts j)) [
      | inl a ↦ absurd (let o = only j a in ground arith)
      | inr a ↦ rw (a, e) (find-update js (rw e at f))
    ]
  ]

reason_is_self : (r : EndReason) → is_stop_reason r ≡ true → same_reason r r ≡ true
reason_is_self EndReason.manual_stop h = refl
reason_is_self EndReason.instance_timeout h = refl
reason_is_self EndReason.success h = cc
reason_is_self EndReason.execution_failed h = cc
reason_is_self EndReason.dispatch_rejected h = cc
reason_is_self EndReason.result_unknown h = cc
reason_is_self (EndReason.other t) h = cc

module _ (i : JobInstance) (reason : EndReason) (s : IsStopped i reason) (ts : List JobTask)
    (z : unfinished i.id ts ≡ 0) where
  accepts-finish : accepts_finish i.id reason ts i ≡ true
  unfolding accepts_finish
  accepts-finish = ground (
    arith,
    ==_refl i.id,
    ap Instance.is_stopping s.stopping,
    ap (reason_is reason) s.reasoned,
    reason_is_self reason s.stop_reason,
    has_unfinished-zero i.id ts z,
  )

map-cancelled :
    (w : TaskCancellation) (ts : List JobTask)
    → map task_id (update (accepts_cancellation w) (cancelled w) ts) ≡ map task_id ts
unfolding cancelled
map-cancelled w [] = refl
map-cancelled w (t ∷ ts) = ground (arith, map-cancelled w ts)

-- What a batch did of the stop: it ended the Instance, or left fewer unfinished children.
pub data Batch (i : JobInstance) (reason : EndReason) (db : Db)
    : Db × Result BatchResult → Type 0 where
  ended :
      (at : Time) (db' : Db) (b : BatchResult)
      → b.more ≡ false
      → db'.tasks ≡ db.tasks
      → unfinished i.id db'.tasks ≡ 0
      → find_instance i.id db'.instances ≡ some (finished (stop_target reason) at i)
      → Batch i reason db (db', ok b)
  reduced :
      (tasks : List JobTask) (b : BatchResult)
      → b.more ≡ true
      → unfinished i.id tasks < unfinished i.id db.tasks
      → map task_id tasks ≡ map task_id db.tasks
      → Rowwise (Carried i.id reason) db.tasks tasks
      → Batch i reason db (record db { tasks = tasks }, ok b)

module _ (limit : ℕ) (env : Env) (db : Db) (i : JobInstance) (reason : EndReason)
    (some_limit : 0 < limit) (q : IsQuiet env) (s : IsStopped i reason)
    (f : find_instance i.id db.instances ≡ some i)
    (u : Unique (λ (j : JobInstance). j.id) db.instances)
    (d : DistinctIds (map task_id db.tasks)) where
  ended-Batch :
      (summary : String)
      → unfinished i.id db.tasks ≡ 0
      → Batch i reason db (
          commit_with done db (process_ids i (stop_target reason) reason summary limit [] env 2 db))
  unfolding commit_with accepts_finish finished
  ended-Batch summary z = rw (finish_ids limit env db i reason some_limit q s summary) (
      ended (env.clock 2) _ _ refl refl z (
        find-update (accepts_finish i.id reason db.tasks)
          (finished (stop_target reason) (env.clock 2)) i (λ j a. ground arith)
          (accepts-finish i reason s db.tasks z) refl db.instances f))

  reduced-Batch :
      (summary : String) (x : ℕ) (xs : List ℕ)
      → stop_outcome (some reason) ≡ some (stop_target reason, reason, summary)
      → list_unfinished_ids i.id limit db.tasks ≡ x ∷ xs
      → Batch i reason db (
          commit_with done db
            (process_ids i (stop_target reason) reason summary limit (x ∷ xs) env 2 db))
  unfolding commit_with
  reduced-Batch summary x xs o e =
      let w = write_of limit env db i reason some_limit q s summary (x ∷ xs) in
      let v : valid_ordered_ids (x ∷ xs) limit ≡ true =
        subst (λ ids. valid_ordered_ids ids limit ≡ true) e (ids_valid i.id limit db.tasks d) in
      let p : elem 0 (x ∷ xs) ≡ false =
        subst (λ ids. elem 0 ids ≡ false) e (ids_positive i.id limit db.tasks d) in
      rw
        (cancel_ids limit env db i reason some_limit q s summary x xs v p
          (cancelled-le-length w db.tasks d))
        (reduced _ _ refl
          (omega (
            arith,
            unfinished-cancelled i.id w db.tasks refl,
            some_cancelled i.id limit db.tasks d w x xs e refl refl,
          ))
          (map-cancelled w db.tasks)
          (update-Carried i.id reason w summary db.tasks refl refl refl o))

  ids-Batch :
      (summary : String) (ids : List ℕ)
      → stop_outcome (some reason) ≡ some (stop_target reason, reason, summary)
      → list_unfinished_ids i.id limit db.tasks ≡ ids
      → Batch i reason db (
          commit_with done db
            (process_ids i (stop_target reason) reason summary limit ids env 2 db))
  ids-Batch summary [] o e =
      ended-Batch summary
        ((length-list_unfinished i.id limit db.tasks d some_limit).0 (ap length e))
  ids-Batch summary (x ∷ xs) o e = reduced-Batch summary x xs o e

  process_batch-Batch : Batch i reason db (process_batch limit i.id env db)
  process_batch-Batch =
      let (summary, o) = outcome_of reason s.stop_reason in
      subst (Batch i reason db) (sym (batch_ids limit env db i reason some_limit q s summary o f))
        (ids-Batch summary (list_unfinished_ids i.id limit db.tasks) o refl)

-- The turn has ended the Instance and needs no further one: every child that was unfinished at its
-- start is cancelled for the stop's reason, no other Task has changed, and the row of the Instance has
-- its final status and a finish time.
pub data Converged (i : JobInstance) (reason : EndReason) (tasks : List JobTask)
    : Db × Result Bool → Type 0 where
  converged :
      (at : Time) (db : Db)
      → Rowwise (Stopped i.id reason) tasks db.tasks
      → unfinished i.id db.tasks ≡ 0
      → find_instance i.id db.instances ≡ some (finished (stop_target reason) at i)
      → Converged i reason tasks (db, ok false)

-- The turn has ended the Instance, with the rows of its Tasks carried along.
data Carries (i : JobInstance) (reason : EndReason) (tasks : List JobTask)
    : Db × Result Bool → Type 0 where
  carries :
      (at : Time) (db : Db)
      → Rowwise (Carried i.id reason) tasks db.tasks
      → unfinished i.id db.tasks ≡ 0
      → find_instance i.id db.instances ≡ some (finished (stop_target reason) at i)
      → Carries i reason tasks (db, ok false)

-- The rest of a turn, from the Tasks of an earlier batch.
earlier-Carries :
    (i : JobInstance) (reason : EndReason) (ts us : List JobTask) (r : Db × Result Bool)
    → Rowwise (Carried i.id reason) ts us
    → Carries i reason us r
    → Carries i reason ts r
earlier-Carries i reason ts us _ p (carries at db c z f) =
    carries at db (trans_Carried i.id reason ts us db.tasks p c) z f

Carries-Converged :
    (i : JobInstance) (reason : EndReason) (ts : List JobTask) (r : Db × Result Bool)
    → Carries i reason ts r
    → Converged i reason ts r
Carries-Converged i reason ts _ (carries at db c z f) =
    converged at db (all_Stopped i.id reason ts db.tasks z c) z f

-- The Context does not end, the time allowance is not used up, and each batch's database answers.
pub record IsQuietTurn (env : TurnEnv) : Type 0 where
  pub runs_on : (k : ℕ) → env.ended k ≡ false
  pub in_time : (k : ℕ) → env.late k ≡ false
  pub quiet : (k : ℕ) → IsQuiet (env.batch k)

module _ (limit : ℕ) (env : TurnEnv) (i : JobInstance) (reason : EndReason) (some_limit : 0 < limit)
    (q : IsQuietTurn env) (s : IsStopped i reason) where
  after_batch :
      (n k : ℕ) (db : Db) (r : Db × Result BatchResult)
      → Batch i reason db r
      → process_batch limit i.id (env.batch k) db ≡ r
      → ((tasks : List JobTask)
          → unfinished i.id tasks < unfinished i.id db.tasks
          → map task_id tasks ≡ map task_id db.tasks
          → Carries i reason tasks (process limit i.id n env (k + 1) (record db { tasks = tasks })))
      → Carries i reason db.tasks (process limit i.id (suc n) env k db)
  unfolding process
  after_batch n k db _ (ended at db' b m same z f) e next =
      let c : Rowwise (Carried i.id reason) db.tasks db'.tasks =
        subst (Rowwise (Carried i.id reason) db.tasks) (sym same)
          (Rowwise-refl (Carried i.id reason) (λ t. kept) db.tasks) in
      subst (Carries i reason db.tasks) (ground (arith, q.runs_on k)) (carries at db' c z f)
  after_batch n k db _ (reduced tasks b m l p c) e next =
      let rest = process limit i.id n env (k + 1) (record db { tasks = tasks }) in
      subst (Carries i reason db.tasks) (ground (arith, q.runs_on k, q.in_time k))
        (earlier-Carries i reason db.tasks tasks rest c (next tasks l p))

  process-Carries :
      (n k : ℕ) (db : Db)
      → find_instance i.id db.instances ≡ some i
      → Unique (λ (j : JobInstance). j.id) db.instances
      → DistinctIds (map task_id db.tasks)
      → unfinished i.id db.tasks < n
      → Carries i reason db.tasks (process limit i.id n env k db)
  process-Carries zero k db f u d l = absurd (omega arith)
  process-Carries (suc n) k db f u d l =
      after_batch n k db (process_batch limit i.id (env.batch k) db)
        (process_batch-Batch limit (env.batch k) db i reason some_limit (q.quiet k) s f u d) refl
        (λ tasks less p.
          process-Carries n (k + 1) (record db { tasks = tasks }) f u (subst DistinctIds (sym p) d)
            (omega (arith, less, l)))

  -- One turn of `n` batches over a database that answers ends a stopped Instance that is in the table,
  -- where Instances have distinct IDs, Tasks distinct positive ones, and fewer than `n` of its children
  -- are unfinished, for any positive batch size: every child that was unfinished is cancelled, with the
  -- stop's reason and summary and a finish time, every other Task is as it was, the Instance's row gets
  -- the status of its reason and a finish time, and the turn asks for no further one.
  pub process-Converged :
      (n k : ℕ) (db : Db)
      → find_instance i.id db.instances ≡ some i
      → Unique (λ (j : JobInstance). j.id) db.instances
      → DistinctIds (map task_id db.tasks)
      → unfinished i.id db.tasks < n
      → Converged i reason db.tasks (process limit i.id n env k db)
  process-Converged n k db f u d l =
      Carries-Converged i reason db.tasks (process limit i.id n env k db)
        (process-Carries n k db f u d l)
