-- ===== src/TaskStore/Races.antt =====
-- The writes of job_task_repository.go that close an attempt: a saved result, BUSY, a rejection and
-- an unknown-result settlement. They come from different goroutines and nodes, in any order.
use dogx.Common.{
  ℕ, suc, ◌≡◌, refl, ◌∙◌, ◌≢◌, is_some, Bool, true, false, Option, none, some, List, [], ◌∷◌, arith,
  Bool-cases, inl, inr, length, select,
}
use dogx.Model.{Time}
use dogx.Model.Task
use dogx.Model.Task.{JobTask, TaskStatus}
use dogx.Database.{Result, ok, err, Reply, done, aborted, unconfirmed, pool, update, affected}
use dogx.Database.Updates.{update-eq_of_none, affected-length}
use dogx.TaskStore.Dispatch.{
  DispatchBusyWrite, DispatchRejectionWrite, accepts_refusal, busy, save_dispatch_busy, rejected,
  save_dispatch_rejection, total_attempts, total_attempts,
}
use dogx.TaskStore.Outcome.{
  TaskResultWrite, accepts_result, resulted, save_result, UnknownSettlement, SettledTask,
  accepts_settlement, settled, settle_ordinary_unknown, settle_transaction, valid_settlement,
  settled_facts, settle_commit, valid_result_write, valid_result_status,
}

pub data Closer : Type 0 where
  result : TaskResultWrite → Closer
  busy_reply : DispatchBusyWrite → Closer
  rejection : DispatchRejectionWrite → Closer
  settlement : UnknownSettlement → Closer

abbrev settled_row : List JobTask × Result (Option SettledTask) → List JobTask × Result Bool
settled_row (rows, ok t) = (rows, ok (is_some t))
settled_row (rows, err e) = (rows, err e)

module _ (is_uuid4 : ℕ → Bool) (interval : ℕ → ℕ) where
  -- The call, on a repository over the pool; `ok true` is the answer of a closed attempt.
  unfoldable pub close : Closer → Reply → Time → List JobTask → List JobTask × Result Bool
  close (result w) reply now rows = save_result is_uuid4 pool reply now w rows
  close (busy_reply w) reply now rows = save_dispatch_busy interval pool reply now w rows
  close (rejection w) reply now rows = save_dispatch_rejection pool reply now w rows
  close (settlement w) reply now rows = settled_row (settle_ordinary_unknown pool reply w rows)

  abbrev pub accepts : Closer → JobTask → Bool
  accepts (result w) = accepts_result w
  accepts (busy_reply w) = accepts_refusal w.task_id w.instance_id w.attempt_no
  accepts (rejection w) = accepts_refusal w.task_id w.instance_id w.attempt_no
  accepts (settlement w) = accepts_settlement w

  abbrev pub change : Closer → Time → JobTask → JobTask
  change (result w) now = resulted w now
  change (busy_reply w) now = busy interval w now
  change (rejection w) now = rejected w (total_attempts w.max_retries) now
  change (settlement w) now = settled w

  abbrev pub task_of : Closer → ℕ
  task_of (result w) = w.task_id
  task_of (busy_reply w) = w.task_id
  task_of (rejection w) = w.task_id
  task_of (settlement w) = w.task_id

  -- The attempt that the call is about.
  abbrev pub closed_attempt : Closer → ℕ
  closed_attempt (result w) = w.attempt_no
  closed_attempt (busy_reply w) = w.attempt_no
  closed_attempt (rejection w) = w.attempt_no
  closed_attempt (settlement w) = w.expected_attempt_no

  pub accepts-attempt :
      (c : Closer) (t : JobTask) → accepts c t ≡ true → t.attempt_no ≡ closed_attempt c
  unfolding accepts_result accepts_settlement
  accepts-attempt (result w) t h = ground arith
  accepts-attempt (busy_reply w) t h = ground arith
  accepts-attempt (rejection w) t h = ground arith
  accepts-attempt (settlement w) t h = ground arith

  pub change-same :
      (c : Closer) (now : Time) (t : JobTask)
      → ((change c now t).id ≡ t.id) × ((change c now t).attempt_no ≡ t.attempt_no)
  unfolding resulted busy rejected settled
  change-same (result w) now t = (refl, refl)
  change-same (busy_reply w) now t = (refl, refl)
  change-same (rejection w) now t = (refl, refl)
  change-same (settlement w) now t = (refl, refl)

  pub accepts-id : (c : Closer) (t : JobTask) → accepts c t ≡ true → t.id ≡ task_of c
  unfolding accepts_result accepts_settlement
  accepts-id (result w) t h = ground arith
  accepts-id (busy_reply w) t h = ground arith
  accepts-id (rejection w) t h = ground arith
  accepts-id (settlement w) t h = ground arith

  pub accepts-running :
      (c : Closer) (t : JobTask) → accepts c t ≡ true → Task.is_running t.status ≡ true
  unfolding accepts_result accepts_settlement
  accepts-running (result w) t h = ground arith
  accepts-running (busy_reply w) t h = ground arith
  accepts-running (rejection w) t h = ground arith
  accepts-running (settlement w) t h = ground arith

  -- What the call did when its answer is `ok true`.
  pub data Closed (c : Closer) (now : Time) (rows : List JobTask) : List JobTask → Type 0 where
    closed :
        {rows' : List JobTask}
        → ((t : JobTask) → Task.is_running (change c now t).status ≡ false)
        → affected (accepts c) rows ≡ 1
        → rows' ≡ update (accepts c) (change c now) rows
        → Closed c now rows rows'

  settled_facts-true :
      (w : UnknownSettlement) (ts : List JobTask) {x : SettledTask}
      → settled_facts w ts ≡ ok (some x)
      → length ts ≡ 1
  unfolding settled_facts
  settled_facts-true w [] h = cc
  settled_facts-true w (t ∷ []) h = refl
  settled_facts-true w (t ∷ u ∷ ts) h = cc

  settled_open :
      (w : UnknownSettlement) (t : JobTask) → Task.is_running (settled w t).status ≡ false
  unfolding settled
  settled_open w t = ground arith

  commit_true :
      (w : UnknownSettlement) (reply : Reply) (rows rows' : List JobTask)
      (facts : Result (Option SettledTask))
      → settled_row (settle_commit w reply rows facts) ≡ (rows', ok true)
      → (x : SettledTask) × (facts ≡ ok (some x))
        × (rows' ≡ update (accepts_settlement w) (settled w) rows)
  unfolding settle_commit
  commit_true w done rows rows' (ok (some x)) h = (x, refl, ground arith)
  commit_true w done rows rows' (ok none) h = absurd (ground arith)
  commit_true w done rows rows' (err e) h = absurd (ground arith)
  commit_true w (aborted f) rows rows' facts h = absurd (ground arith)
  commit_true w (unconfirmed f) rows rows' (ok x) h = absurd (ground arith)
  commit_true w (unconfirmed f) rows rows' (err e) h = absurd (ground arith)

  transaction_true :
      (w : UnknownSettlement) (reply : Reply) (rows rows' : List JobTask)
      → settled_row (settle_transaction reply w rows) ≡ (rows', ok true)
      → (affected (accepts_settlement w) rows ≡ 1)
        × (rows' ≡ update (accepts_settlement w) (settled w) rows)
  unfolding settle_transaction
  transaction_true w reply rows rows' h =
      let found = select (accepts_settlement w) rows in
      let c = commit_true w reply rows rows' (settled_facts w found) h in
      (affected-length (accepts_settlement w) rows ∙ settled_facts-true w found c.1, c.2)

  settle_true :
      (w : UnknownSettlement) (reply : Reply) (rows rows' : List JobTask)
      → settled_row (settle_ordinary_unknown pool reply w rows) ≡ (rows', ok true)
      → (affected (accepts_settlement w) rows ≡ 1)
        × (rows' ≡ update (accepts_settlement w) (settled w) rows)
  unfolding settle_ordinary_unknown
  settle_true w reply rows rows' h = elim (Bool-cases (valid_settlement w)) [
    | inl e ↦ transaction_true w reply rows rows' (rw (e, settle_ordinary_unknown) at h)
    | inr e ↦ absurd (ground arith)
  ]

  pub close-Closed :
      (c : Closer) (reply : Reply) (now : Time) (rows rows' : List JobTask)
      → close c reply now rows ≡ (rows', ok true)
      → Closed c now rows rows'
  unfolding close save_result save_dispatch_busy save_dispatch_rejection valid_result_write
      valid_result_status resulted busy rejected
  close-Closed (result w) reply now rows rows' h =
      closed (λ t. ground arith) (ground arith) (ground arith)
  close-Closed (busy_reply w) reply now rows rows' h =
      closed (λ t. refl) (ground arith) (ground arith)
  close-Closed (rejection w) reply now rows rows' h =
      closed (λ t. ground arith) (ground arith) (ground arith)
  close-Closed (settlement w) reply now rows rows' h =
      closed (settled_open w) (settle_true w reply rows rows' h).0
        (settle_true w reply rows rows' h).1

  select_empty :
      (w : UnknownSettlement) (rows : List JobTask)
      → affected (accepts_settlement w) rows ≡ 0
      → select (accepts_settlement w) rows ≡ []
  select_empty w [] h = refl
  select_empty w (t ∷ ts) h = elim (Bool-cases (accepts_settlement w t)) [
    | inl e ↦
        absurd (let n : suc (affected (accepts_settlement w) ts) ≡ 0 = rw e at h in omega arith)
    | inr e ↦ rw e (select_empty w ts (rw e at h))
  ]

  -- The answer of a call that matched no row.
  abbrev pub Unmatched : List JobTask → List JobTask × Result Bool → Type 0
  Unmatched rows r = (r.0 ≡ rows) × (r.1 ≢ ok true)

  transaction-Unmatched :
      (w : UnknownSettlement) (reply : Reply) (rows : List JobTask)
      → affected (accepts_settlement w) rows ≡ 0
      → Unmatched rows (settled_row (settle_transaction reply w rows))
  unfolding settle_transaction settle_commit settled_facts
  transaction-Unmatched w reply rows h =
      rw (select_empty w rows h, settle_transaction)
        (ground (arith, update-eq_of_none (accepts_settlement w) (settled w) rows h))

  -- With no row to accept, a call leaves the table alone and does not answer `ok true`.
  pub close-Unmatched :
      (c : Closer) (reply : Reply) (now : Time) (rows : List JobTask)
      → affected (accepts c) rows ≡ 0
      → Unmatched rows (close c reply now rows)
  unfolding close save_result save_dispatch_busy save_dispatch_rejection settle_ordinary_unknown
  close-Unmatched (result w) reply now rows h =
      ground (arith, update-eq_of_none (accepts_result w) (resulted w now) rows h)
  close-Unmatched (busy_reply w) reply now rows h =
      ground (arith, update-eq_of_none (accepts (busy_reply w)) (busy interval w now) rows h)
  close-Unmatched (rejection w) reply now rows h = ground (
    arith,
    update-eq_of_none (accepts (rejection w)) (rejected w (total_attempts w.max_retries) now) rows
        h,
  )
  close-Unmatched (settlement w) reply now rows h = elim (Bool-cases (valid_settlement w)) [
    | inl e ↦ rw (e, settle_ordinary_unknown) (transaction-Unmatched w reply rows h)
    | inr e ↦ ground arith
  ]
