-- ===== src/TaskStore/Effects.antt =====
-- Every call of job_task_repository.go has one of the effects of TaskStore/History.
use Prim.Native.String.{String}
use dogx.Common.{
  ℕ, ◌≡◌, refl, ◌==◌, ==_refl, if◌then◌else◌, Bool, true, false, Option, none, some, List, [], ◌∷◌,
  arith, Bool-cases, Option-cases, select, inl, inr, ◌||◌,
}
use dogx.Model.{Time, is_zero}
use dogx.Model.Task.{JobTask}
use dogx.Database.{
  Fault, Error, Result, ok, err, driver, Reply, done, aborted, unconfirmed, Handle, pool,
  in_transaction, update, commit_update, one_row,
}
use dogx.TaskStore.Dispatch.{
  ExecutorBinding, bind_executor, accepts_binding, bound, DispatchBusyWrite, DispatchRejectionWrite,
  accepts_refusal, busy, save_dispatch_busy, rejected, save_dispatch_rejection, total_attempts,
  dispatch_write_error,
}
use dogx.TaskStore.Start.{
  RetryRegistration, RegisteredTask, accepts_registration, registered, register_ordinary_retry,
  insert_ordinary, overflow_check, returned, has_ordinary, valid_registration, overflows,
}
use dogx.TaskStore.Outcome.{
  TaskResultWrite, accepts_result, resulted, save_result, UnknownSettlement, SettledTask,
  accepts_settlement, settled, settle_ordinary_unknown, settle_transaction, settle_commit,
  valid_result_status, valid_result_write, valid_settlement, valid_cancellation, TaskCancellation,
  accepts_cancellation, cancelled, cancel_unfinished,
}
use dogx.TaskStore.History.{
  Write, insert, register, bind, busy_reply, rejection, result, settle, cancel, or_else, apply,
  inserts, RowChange, binding, refused, turned_down, retried, reported, unknown, stopped, Effect,
  nothing, inserted, updated,
}

module _ (ids : ℕ → Bool) (rows : List JobTask) (accepts : JobTask → Bool)
    (change : JobTask → JobTask)
    (row : (t : JobTask) → accepts t ≡ true → RowChange t (change t)) where
  commit-Effect :
      (classify : Fault → Error) (reply : Reply)
      → Effect ids rows (one_row classify (commit_update reply accepts change rows)).0
  commit-Effect classify done = updated accepts change row refl
  commit-Effect classify (aborted f) = nothing refl
  commit-Effect classify (unconfirmed f) = updated accepts change row refl

module _ (ids : ℕ → Bool) (rows : List JobTask) {A : Type 0} where
  -- A refused argument changes nothing; nor does a refused transaction.
  if-Effect :
      (b : Bool) (e : Error) (r : List JobTask × Result A)
      → Effect ids rows r.0
      → Effect ids rows (if b then (rows, err e) else r).0
  if-Effect true e r h = nothing refl
  if-Effect false e r h = h

  if_ok-Effect :
      (b : Bool) (e : Error) (r : List JobTask × Result A)
      → Effect ids rows r.0
      → Effect ids rows (if b then r else (rows, err e)).0
  if_ok-Effect true e r h = h
  if_ok-Effect false e r h = nothing refl

  unless-Effect :
      (b : Bool) (e : Error) (r : Result (A × List JobTask))
      → Effect ids rows (or_else rows r)
      → Effect ids rows (or_else rows (if b then err e else r))
  unless-Effect true e r h = nothing refl
  unless-Effect false e r h = h

  when-Effect :
      (b : Bool) (e : Error) (r : Result (A × List JobTask))
      → Effect ids rows (or_else rows r)
      → Effect ids rows (or_else rows (if b then r else err e))
  when-Effect true e r h = h
  when-Effect false e r h = nothing refl

module _ (is_uuid4 : ℕ → Bool) (valid_address : String → Bool) (interval : ℕ → ℕ)
    (ids : ℕ → Bool) where
  bind-Effect :
      (reply : Reply) (now : Time) (b : ExecutorBinding) (rows : List JobTask)
      → Effect ids rows (bind_executor is_uuid4 valid_address reply now b rows).0
  unfolding bind_executor
  bind-Effect reply now b rows = if-Effect ids rows _ _ _ (
      commit-Effect ids rows (accepts_binding b) (bound b now) (λ t a. binding b now a)
        dispatch_write_error reply)

  busy-Effect :
      (handle : Handle) (reply : Reply) (now : Time) (w : DispatchBusyWrite) (rows : List JobTask)
      → Effect ids rows (save_dispatch_busy interval handle reply now w rows).0
  unfolding save_dispatch_busy
  busy-Effect in_transaction reply now w rows = nothing refl
  busy-Effect pool reply now w rows = if-Effect ids rows _ _ _ (
      commit-Effect ids rows (accepts_refusal w.task_id w.instance_id w.attempt_no)
        (busy interval w now) (λ t a. refused interval w now a) dispatch_write_error reply)

  rejection-Effect :
      (handle : Handle) (reply : Reply) (now : Time) (w : DispatchRejectionWrite)
      (rows : List JobTask)
      → Effect ids rows (save_dispatch_rejection handle reply now w rows).0
  unfolding save_dispatch_rejection
  rejection-Effect in_transaction reply now w rows = nothing refl
  rejection-Effect pool reply now w rows = if-Effect ids rows _ _ _ (
      commit-Effect ids rows (accepts_refusal w.task_id w.instance_id w.attempt_no)
        (rejected w (total_attempts w.max_retries) now)
        (λ t a. turned_down w (total_attempts w.max_retries) now a) dispatch_write_error reply)

  valid_status :
      (w : TaskResultWrite)
      → valid_result_write is_uuid4 w ≡ true
      → valid_result_status w.status w.retry_interval_seconds ≡ true
  unfolding valid_result_write
  valid_status w h = ground arith

  result-Effect :
      (handle : Handle) (reply : Reply) (now : Time) (w : TaskResultWrite) (rows : List JobTask)
      → Effect ids rows (save_result is_uuid4 handle reply now w rows).0
  unfolding save_result
  result-Effect in_transaction reply now w rows =
      if_ok-Effect ids rows (valid_result_write is_uuid4 w) _ _ (nothing refl)
  result-Effect pool reply now w rows = elim (Bool-cases (valid_result_write is_uuid4 w)) [
    | inl e ↦ rw e (
        commit-Effect ids rows (accepts_result w) (resulted w now)
          (λ t a. reported w now (valid_status w e) a) driver reply)
    | inr e ↦ rw e (nothing refl)
  ]

  settle_commit-Effect :
      (w : UnknownSettlement) (reply : Reply) (rows : List JobTask)
      (facts : Result (Option SettledTask))
      → Effect ids rows (settle_commit w reply rows facts).0
  unfolding settle_commit
  settle_commit-Effect w (aborted f) rows facts = nothing refl
  settle_commit-Effect w done rows (err e) = nothing refl
  settle_commit-Effect w (unconfirmed f) rows (err e) = nothing refl
  settle_commit-Effect w done rows (ok x) =
      updated (accepts_settlement w) (settled w) (λ t a. unknown w a) refl
  settle_commit-Effect w (unconfirmed f) rows (ok x) =
      updated (accepts_settlement w) (settled w) (λ t a. unknown w a) refl

  settle-Effect :
      (handle : Handle) (reply : Reply) (w : UnknownSettlement) (rows : List JobTask)
      → Effect ids rows (settle_ordinary_unknown handle reply w rows).0
  unfolding settle_ordinary_unknown settle_transaction
  settle-Effect in_transaction reply w rows =
      if_ok-Effect ids rows (valid_settlement w) _ _ (nothing refl)
  settle-Effect pool reply w rows =
      if_ok-Effect ids rows (valid_settlement w) _ _ (settle_commit-Effect w reply rows _)

  cancel-Effect :
      (handle : Handle) (fault : Option Fault) (w : TaskCancellation) (rows : List JobTask)
      → Effect ids rows (or_else rows (cancel_unfinished handle fault w rows))
  unfolding cancel_unfinished
  cancel-Effect pool fault w rows =
      when-Effect ids rows {A = ℕ} (valid_cancellation w) _ _ (nothing refl)
  cancel-Effect in_transaction none w rows =
      when-Effect ids rows {A = ℕ} (valid_cancellation w) _ _
        (updated (accepts_cancellation w) (cancelled w) (λ t a. stopped w a) refl)
  cancel-Effect in_transaction (some f) w rows =
      when-Effect ids rows {A = ℕ} (valid_cancellation w) _ _ (nothing refl)

  insert-Effect :
      (fault : Option Fault) (next instance : ℕ) (at : Time) (rows : List JobTask)
      → ids next ≡ true
      → Effect ids rows (or_else rows (insert_ordinary fault next instance at rows))
  unfolding insert_ordinary
  insert-Effect (some f) next instance at rows n =
      unless-Effect ids rows {A = ℕ} (instance == 0 || is_zero at) _ _ (nothing refl)
  insert-Effect none next instance at rows n =
      unless-Effect ids rows {A = ℕ} (instance == 0 || is_zero at) _ _ (
        unless-Effect ids rows {A = ℕ} (has_ordinary instance rows) _ _
          (inserted next instance at n refl))

  returned-Effect :
      (w : RetryRegistration) (found rows : List JobTask)
      → Effect ids rows
          (or_else rows (returned found (update (accepts_registration w) (registered w) rows)))
  unfolding returned
  returned-Effect w [] rows =
      updated (accepts_registration w) (registered w) (λ t a. retried w a) refl
  returned-Effect w (t ∷ u ∷ ts) rows = nothing refl
  returned-Effect w (t ∷ []) rows = elim (Option-cases t.attempt_registered_at) [
    | inl e ↦ nothing (rw (e, returned) refl)
    | inr (at, e) ↦
        updated (accepts_registration w) (registered w) (λ t a. retried w a) (rw (e, returned) refl)
  ]

  overflow_check-Effect :
      (w : RetryRegistration) (found rows : List JobTask)
      → Effect ids rows (or_else rows (overflow_check w found rows))
  unfolding overflow_check
  overflow_check-Effect w [] rows = nothing refl
  overflow_check-Effect w (t ∷ ts) rows =
      unless-Effect ids rows (overflows t) _ _ (returned-Effect w (registered w t ∷ ts) rows)

  register-Effect :
      (handle : Handle) (fault : Option Fault) (w : RetryRegistration) (rows : List JobTask)
      → Effect ids rows (or_else rows (register_ordinary_retry handle fault w rows))
  unfolding register_ordinary_retry
  register-Effect pool fault w rows =
      when-Effect ids rows {A = Option RegisteredTask} (valid_registration w) _ _ (nothing refl)
  register-Effect in_transaction (some f) w rows =
      when-Effect ids rows {A = Option RegisteredTask} (valid_registration w) _ _ (nothing refl)
  register-Effect in_transaction none w rows =
      when-Effect ids rows {A = Option RegisteredTask} (valid_registration w) _ _
        (overflow_check-Effect w (select (accepts_registration w) rows) rows)

module _ (is_uuid4 : ℕ → Bool) (valid_address : String → Bool) (interval : ℕ → ℕ) where
  pub apply-Effect :
      (w : Write) (rows : List JobTask)
      → Effect (inserts w) rows (apply is_uuid4 valid_address interval w rows)
  unfolding apply
  apply-Effect (insert fault next instance at) rows =
      insert-Effect is_uuid4 valid_address interval _ fault next instance at rows (==_refl next)
  apply-Effect (register handle fault w) rows =
      register-Effect is_uuid4 valid_address interval _ handle fault w rows
  apply-Effect (bind reply now b) rows =
      bind-Effect is_uuid4 valid_address interval _ reply now b rows
  apply-Effect (busy_reply handle reply now w) rows =
      busy-Effect is_uuid4 valid_address interval _ handle reply now w rows
  apply-Effect (rejection handle reply now w) rows =
      rejection-Effect is_uuid4 valid_address interval _ handle reply now w rows
  apply-Effect (result handle reply now w) rows =
      result-Effect is_uuid4 valid_address interval _ handle reply now w rows
  apply-Effect (settle handle reply w) rows =
      settle-Effect is_uuid4 valid_address interval _ handle reply w rows
  apply-Effect (cancel handle fault w) rows =
      cancel-Effect is_uuid4 valid_address interval _ handle fault w rows
