-- ===== src/Database.antt =====
-- PostgreSQL and GORM as the repositories of apps/job/internal/repository use them: a table is a
-- list of rows, an UPDATE changes the rows that its WHERE accepts and counts them, a comparison with
-- NULL accepts nothing. Neither is code of the repository, so what a statement answers beyond that
-- (failure, rollback, a commit whose confirmation is lost) is an argument of the operations.
pub mod Updates
pub mod Pages
use dogx.Common.{
  ℕ, suc, ◌==◌, leb, ltb, if◌then◌else◌, Bool, true, false, Option, none, some, List, [], ◌∷◌, ◌⊎◌,
  inl, inr,
}
use dogx.Model.{Time}

-- The SQLSTATE of a server response, as far as the code looks at it: the classes 22, 23 and 42, the
-- code 55P03 of an unavailable NOWAIT lock, and any other.
pub data SqlState : Type 0 where
  data_exception integrity_violation access_rule_violation lock_not_available : SqlState
  other : ℕ → SqlState

-- A driver's error: a server response, any other transport failure, or the end of the context.
pub data Fault : Type 0 where
  postgres : SqlState → Fault
  transport expired : Fault

-- The errors that the code tells apart; the wrapped text is left out.
pub data Error : Type 0 where
  invalid_argument : Error  -- errors.New("invalid ...")
  needs_transaction : Error
  needs_independent_commit : Error
  invalid_dispatch_write : Error  -- ErrInvalidDispatchWrite
  dispatch_write_rejected : Fault → Error  -- ErrDispatchWriteRejected
  instance_locked : Fault → Error  -- ErrInstanceLocked
  instance_not_found : Error  -- ErrInstanceNotFound
  job_not_found : Error  -- ErrJobNotFound
  invalid_facts : Error  -- ErrInvalidFacts, ErrInvalidState, "returned invalid facts"
  invalid_config : Error  -- ErrInvalidConfig, ErrInvalidExecutionConfig
  driver : Fault → Error

pub data Result {ℓ} (A : Type ℓ) : Type ℓ where
  ok : A → Result A
  err : Error → Result A

-- How one independently committing statement ends: done, failed and rolled back, or committed with
-- its confirmation lost.
pub data Reply : Type 0 where
  done : Reply
  aborted unconfirmed : Fault → Reply

-- What the repository was built on: a pool, or the handle of an open transaction.
pub data Handle : Type 0 where
  pool in_transaction : Handle

module _ {A : Type 0} where
  -- UPDATE ... SET change WHERE accepts
  abbrev pub update : (A → Bool) → (A → A) → List A → List A
  update accepts change [] = []
  update accepts change (r ∷ rs) = (if accepts r then change r else r) ∷ update accepts change rs

  -- RowsAffected
  abbrev pub affected : (A → Bool) → List A → ℕ
  affected accepts [] = 0
  affected accepts (r ∷ rs) = let n = affected accepts rs in if accepts r then suc n else n

  -- One UPDATE in its own implicit transaction: the table after it, and the error or row count.
  abbrev pub commit_update : Reply → (A → Bool) → (A → A) → List A → List A × (ℕ ⊎ Fault)
  commit_update done accepts change rs = (update accepts change rs, inl (affected accepts rs))
  commit_update (aborted f) accepts change rs = (rs, inr f)
  commit_update (unconfirmed f) accepts change rs = (update accepts change rs, inr f)

-- The call's answer from its statement's: whether exactly one row was changed.
abbrev pub one_row : {A : Type 0} → (Fault → Error) → List A × (ℕ ⊎ Fault) → List A × Result Bool
one_row classify (rs, inl n) = (rs, ok (n == 1))
one_row classify (rs, inr f) = (rs, err (classify f))

-- SQL comparisons: NULL is neither below nor above anything.
abbrev pub sql_le : Option Time → Time → Bool
sql_le none t = false
sql_le (some s) t = leb s t

abbrev pub sql_gt : Option Time → Time → Bool
sql_gt none t = false
sql_gt (some s) t = ltb t s

-- id IN (...)
abbrev pub elem : ℕ → List ℕ → Bool
elem a [] = false
elem a (b ∷ bs) = if a == b then true else elem a bs
