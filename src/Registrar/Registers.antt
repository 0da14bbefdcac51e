-- ===== src/Registrar/Registers.antt =====
-- dispatch/registrar.go: what the registration inside its transaction answers.
use dogx.Common.{
  ◌+◌, ◌≡◌, subst, false, Option, none, some, List, [], ◌∷◌, length, select, arith, Bool-cases,
  Option-cases, inl, inr,
}
use dogx.Model.Task.{JobTask}
use dogx.Database.{
  Fault, Error, driver, Result, ok, err, update, affected, invalid_argument, invalid_facts,
  in_transaction, postgres, SqlState,
}
use dogx.Database.Updates.{affected-length}
use dogx.TaskStore.Start.{
  RetryRegistration, RegisteredTask, register_ordinary_retry, accepts_registration, registered,
  overflow_check, returned, overflows, valid_registration,
}

-- What the registration inside a transaction answers.
pub data Registers (w : RetryRegistration) (rows : List JobTask)
    : Result (Option RegisteredTask × List JobTask) → Type 0 where
  no_answer : (e : Error) → Registers w rows (err e)
  no_row : affected (accepts_registration w) rows ≡ 0 → Registers w rows (ok (none, rows))
  a_row :
      (t : RegisteredTask)
      → affected (accepts_registration w) rows ≡ 1
      → Registers w rows (ok (some t, update (accepts_registration w) (registered w) rows))

overflow_check-Registers :
    (w : RetryRegistration) (rows found : List JobTask)
    → affected (accepts_registration w) rows ≡ length found
    → Registers w rows (overflow_check w found rows)
unfolding overflow_check returned registered
overflow_check-Registers w rows [] h = no_row h
overflow_check-Registers w rows (t ∷ ts) h = elim (Bool-cases (overflows t)) [
  | inl o ↦
      subst (Registers w rows) (ground arith)
        (no_answer (driver (postgres SqlState.data_exception)))
  | inr o ↦ rows_left ts o h
]
  where
    rows_left :
        (us : List JobTask)
        → overflows t ≡ false
        → affected (accepts_registration w) rows ≡ length (t ∷ us)
        → Registers w rows (overflow_check w (t ∷ us) rows)
    rows_left [] o h = subst (Registers w rows) (ground arith) (
        a_row
          (record {
            task_id = t.id;
            instance_id = t.instance_id;
            attempt_no = t.attempt_no + 1;
            used_attempts = t.used_attempts + 1;
            registered_at = w.registered_at;
          })
          h)
    rows_left (u ∷ us) o h = subst (Registers w rows) (ground arith) (no_answer invalid_facts)

pub register-Registers :
    (fault : Option Fault) (w : RetryRegistration) (rows : List JobTask)
    → Registers w rows (register_ordinary_retry in_transaction fault w rows)
unfolding register_ordinary_retry
register-Registers fault w rows = elim (Bool-cases (valid_registration w)) [
  | inr v ↦ subst (Registers w rows) (ground arith) (no_answer invalid_argument)
  | inl v ↦ elim (Option-cases fault) [
    | inr (f, p) ↦ subst (Registers w rows) (ground arith) (no_answer (driver f))
    | inl p ↦ subst (Registers w rows) (ground arith) (
        overflow_check-Registers w rows (select (accepts_registration w) rows)
          (affected-length (accepts_registration w) rows))
  ]
]
