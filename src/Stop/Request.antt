-- ===== src/Stop/Request.antt =====
-- instancestop/controller.go: what RequestManual and RequestTimeout may answer and leave behind.
use Prim.Native.String.{String}
use dogx.Common.{
  ℕ, suc, ◌≡◌, refl, sym, subst, ◌⊎◌, inl, inr, ◌==◌, ltb, ◌||◌, not, Bool, true, false, Option,
  some, List, [], ◌∷◌, arith, Bool-cases, Option-cases, ◌≤◌,
}
use dogx.Model.{Time, is_zero, EndReason}
use dogx.Model.Instance
use dogx.Model.Instance.{JobInstance, InstanceStatus}
use dogx.Database.{
  Fault, Error, driver, Result, ok, err, in_transaction, Reply, done, aborted, unconfirmed,
  affected, update, invalid_facts, instance_not_found, invalid_argument,
}
use dogx.InstanceStore.Writes.{record_stop, accepts_stop, stop, valid_stop}
use dogx.Transaction.{Db, Env, commit_with}
use dogx.Stop.{
  Decision, find_instance, lock_for_stop, lock_error, observed_decision, valid_active_times,
  record_decision, decide_reason, decide, decide_active, request_stop_found, request_stop_body,
  request_stop, manual_stop_summary, timeout_summary,
}

record_stop_cases :
    (fault : Option Fault) (id : ℕ) (expected : InstanceStatus) (reason : EndReason)
    (summary : String) (at : Time) (rows : List JobInstance)
    → ((e : Error) × (record_stop in_transaction fault id expected reason summary at rows ≡ err e))
      ⊎ (record_stop in_transaction fault id expected reason summary at rows
          ≡ ok (
            affected (accepts_stop id expected) rows == 1,
            update (accepts_stop id expected) (stop reason summary at) rows,
          ))
unfolding record_stop
record_stop_cases fault id expected reason summary at rows =
    elim (Bool-cases (valid_stop id expected reason at)) [
      | inr v ↦ inl (invalid_argument, ground arith)
      | inl v ↦ elim (Option-cases fault) [
        | inl f ↦ inr (ground arith)
        | inr (f, p) ↦ inl (driver f, ground arith)
      ]
    ]

-- The reason and time of a decision: by hand at any time, by timeout for a running round that has
-- reached its deadline.
pub data Cause (i : JobInstance) (now : Time) : Bool → EndReason → String → Type 0 where
  manual : Cause i now false EndReason.manual_stop manual_stop_summary
  timeout :
      (deadline : Time)
      → i.deadline_at ≡ some deadline
      → deadline ≤ now
      → Instance.is_running i.status ≡ true
      → Cause i now true EndReason.instance_timeout timeout_summary

abbrev pub recorded_decision : JobInstance → EndReason → Decision
recorded_decision i reason = record {
  instance_id = i.id;
  executor_group_id = i.executor_group_id;
  status = InstanceStatus.stopping;
  end_reason = some reason;
  new = true;
}

-- A callback's outcome for the locked row `i`: an error, the row's facts with nothing written, or a
-- decision recorded in that one row.
data Body (by_timeout : Bool) (i : JobInstance) (db : Db)
    : Result (Decision × ℕ × Db) → Type 0 where
  failed : (e : Error) → Body by_timeout i db (err e)
  seen : (n : ℕ) → Body by_timeout i db (ok (observed_decision i, n, db))
  decided :
      (n : ℕ) (now : Time) (reason : EndReason) (summary : String)
      → Cause i now by_timeout reason summary
      → valid_active_times i ≡ true
      → affected (accepts_stop i.id i.status) db.instances ≡ 1
      → Body by_timeout i db (
          ok (
            recorded_decision i reason,
            n,
            record db {
              instances =
                  update (accepts_stop i.id i.status) (stop reason summary now) db.instances;
            },
          ))

module _ (b : Bool) (i : JobInstance) (env : Env) (db : Db) where
  record_decision-Body :
      (n : ℕ) (now : Time) (reason : EndReason) (summary : String)
      → Cause i now b reason summary
      → valid_active_times i ≡ true
      → Body b i db (record_decision i reason summary now env n db)
  unfolding record_decision
  record_decision-Body n now reason summary c v =
      elim (record_stop_cases (env.fault n) i.id i.status reason summary now db.instances) [
        | inl (e, p) ↦ subst (Body b i db) (ground arith) (failed e)
        | inr p ↦ elim (Bool-cases (affected (accepts_stop i.id i.status) db.instances == 1)) [
          | inl one ↦
              subst (Body b i db) (ground arith)
                (decided (suc n) now reason summary c v (ground arith))
          | inr other ↦ subst (Body b i db) (ground arith) (failed invalid_facts)
        ]
      ]

  decide_reason-Body :
      (n : ℕ) (now : Time)
      → (b ≡ true → Instance.is_running i.status ≡ true)
      → valid_active_times i ≡ true
      → Body b i db (decide_reason b i now env n db)
  unfolding decide_reason
  decide_reason-Body n now run v = go b refl
    where
      go : (c : Bool) → b ≡ c → Body b i db (decide_reason b i now env n db)
      go false e = subst (Body b i db) (ground arith) (
          record_decision-Body n now EndReason.manual_stop manual_stop_summary
            (subst (λ c. Cause i now c EndReason.manual_stop manual_stop_summary) (sym e) manual) v)
      go true e = elim (Option-cases i.deadline_at) [
        | inl d ↦ subst (Body b i db) (ground arith) (failed invalid_facts)
        | inr (d, p) ↦ elim (Bool-cases (ltb now d)) [
          | inl early ↦ subst (Body b i db) (ground arith) (seen n)
          | inr late ↦ subst (Body b i db) (ground arith) (
              record_decision-Body n now EndReason.instance_timeout timeout_summary
                (subst (λ c. Cause i now c EndReason.instance_timeout timeout_summary) (sym e)
                  (timeout d p (ground arith) (run e)))
                v)
        ]
      ]

  decide-Body :
      (n : ℕ) → (b ≡ true → Instance.is_running i.status ≡ true) → Body b i db (decide b i env n db)
  unfolding decide
  decide-Body n run = elim (Option-cases (env.fault n)) [
    | inr (f, p) ↦ subst (Body b i db) (ground arith) (failed (driver f))
    | inl p ↦
        elim (Bool-cases
          (is_zero (env.clock n) || i.executor_group_id == 0 || not (valid_active_times i))) [
            | inl bad ↦ subst (Body b i db) (ground arith) (failed invalid_facts)
            | inr good ↦
                subst (Body b i db) (ground arith)
                  (decide_reason-Body (suc n) (env.clock n) run (ground arith))
          ]
  ]

  decide_active-Body :
      (n : ℕ) (s : InstanceStatus) → i.status ≡ s → Body b i db (decide_active b s i env n db)
  unfolding decide_active
  decide_active-Body n InstanceStatus.waiting e = elim (Bool-cases b) [
    | inl t ↦ subst (Body b i db) (ground arith) (seen n)
    | inr f ↦ subst (Body b i db) (ground arith) (decide-Body n (λ t. cc))
  ]
  decide_active-Body n InstanceStatus.running e = decide-Body n (λ _. ground arith)
  decide_active-Body n InstanceStatus.succeeded e = seen n
  decide_active-Body n InstanceStatus.failed e = seen n
  decide_active-Body n InstanceStatus.canceled e = seen n
  decide_active-Body n InstanceStatus.stopping e = seen n
  decide_active-Body n (InstanceStatus.unknown k) e = failed invalid_facts

-- The call's answer and the tables after it: an error and no change, the facts of the found row and
-- no change, a decision recorded in that row, or an error that hides one of the last two, since the
-- confirmation of the commit was lost.
pub data Answer (by_timeout : Bool) (id : ℕ) (db : Db) : Db × Result Decision → Type 0 where
  refused : (e : Error) → Answer by_timeout id db (db, err e)
  seen :
      (i : JobInstance)
      → find_instance id db.instances ≡ some i
      → Answer by_timeout id db (db, ok (observed_decision i))
  decided :
      (i : JobInstance) (now : Time) (reason : EndReason) (summary : String)
      → find_instance id db.instances ≡ some i
      → Cause i now by_timeout reason summary
      → valid_active_times i ≡ true
      → affected (accepts_stop id i.status) db.instances ≡ 1
      → Answer by_timeout id db (
        record db {
          instances = update (accepts_stop id i.status) (stop reason summary now) db.instances;
        },
        ok (recorded_decision i reason),
      )
  lost :
      (f : Fault) (d : Decision) (db' : Db)
      → Answer by_timeout id db (db', ok d)
      → Answer by_timeout id db (db', err (driver f))

-- The two outcomes that write.
module _ (b : Bool) (id : ℕ) (i : JobInstance) (db : Db) (e : i.id ≡ id)
    (l : find_instance id db.instances ≡ some i) where
  decided-Answer :
      (now : Time) (reason : EndReason) (summary : String)
      → Cause i now b reason summary
      → valid_active_times i ≡ true
      → affected (accepts_stop i.id i.status) db.instances ≡ 1
      → Answer b id db (
        record db {
          instances = update (accepts_stop i.id i.status) (stop reason summary now) db.instances;
        },
        ok (recorded_decision i reason),
      )
  decided-Answer now reason summary c v one =
      subst
        (λ k. Answer b id db (
          record db {
            instances = update (accepts_stop k i.status) (stop reason summary now) db.instances;
          },
          ok (recorded_decision i reason),
        ))
        (sym e)
        (decided i now reason summary l c v
          (subst (λ k. affected (accepts_stop k i.status) db.instances ≡ 1) e one))

  commit-Answer :
      (reply : Reply) (r : Result (Decision × ℕ × Db))
      → Body b i db r
      → Answer b id db (commit_with reply db r)
  unfolding commit_with
  commit-Answer reply r (failed x) = refused x
  commit-Answer done r (seen n) = seen i l
  commit-Answer (aborted f) r (seen n) = refused (driver f)
  commit-Answer (unconfirmed f) r (seen n) = lost f (observed_decision i) db (seen i l)
  commit-Answer done r (decided n now reason summary c v one) =
      decided-Answer now reason summary c v one
  commit-Answer (aborted f) r (decided n now reason summary c v one) = refused (driver f)
  commit-Answer (unconfirmed f) r (decided n now reason summary c v one) =
      lost f (recorded_decision i reason) _ (decided-Answer now reason summary c v one)

pub find-id :
    (id : ℕ) (rows : List JobInstance) {i : JobInstance}
    → find_instance id rows ≡ some i
    → i.id ≡ id
unfolding find_instance
find-id id [] {i} h = absurd (ground arith)
find-id id (j ∷ js) {i} h = elim (Bool-cases (j.id == id)) [
  | inl e ↦ ground arith
  | inr e ↦ find-id id js {i = i} (ground arith)
]

-- A stop request by hand or by timeout, whatever the database answers, ends in one of these ways: an
-- error and unchanged tables; the facts of the Instance and unchanged tables; a decision recorded in
-- the one row with the ID and the status that was read, whose times are valid, and for a timeout only
-- of a running Instance whose deadline has passed; or an error that hides one of the last two, when
-- the confirmation of the commit was lost.
pub request_stop-Answer :
    (by_timeout : Bool) (id : ℕ) (env : Env) (db : Db)
    → Answer by_timeout id db (request_stop by_timeout id env db)
unfolding request_stop request_stop_body request_stop_found lock_for_stop
request_stop-Answer b id env db = elim (Bool-cases (id == 0)) [
  | inl z ↦ subst (Answer b id db) (ground arith) (refused invalid_argument)
  | inr z ↦ elim (Option-cases (env.fault 0)) [
    | inr (f, p) ↦ subst (Answer b id db) (ground arith) (refused (lock_error false f))
    | inl p ↦ elim (Option-cases (find_instance id db.instances)) [
      | inl l ↦ subst (Answer b id db) (ground arith) (refused instance_not_found)
      | inr (i, l) ↦
          let e = find-id id db.instances l in
          subst (Answer b id db) (ground arith) (
            commit-Answer b id i db e l env.commit (decide_active b i.status i env 1 db)
              (decide_active-Body b i env db 1 i.status refl))
    ]
  ]
]
