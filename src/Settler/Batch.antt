-- ===== src/Settler/Batch.antt =====
-- taskrecovery/settler.go: SettleBatch.
use dogx.Common.{
  ℕ, ◌+◌, ◌==◌, leb, if◌then◌else◌, ◌&&◌, ◌||◌, not, Bool, true, false, Option, none, some, List,
  [], ◌∷◌, length, map,
}
use dogx.Model.{Time, is_zero, Snapshot}
use dogx.Model.Task
use dogx.Model.Task.{JobTask}
use dogx.Database.{
  Error, driver, expired, invalid_argument, invalid_facts, Result, ok, err, Reply, pool, elem,
}
use dogx.TaskStore.Outcome.{SettledTask, settle_ordinary_unknown}
use dogx.Settler.{
  UnboundCandidate, UnboundTarget, FrozenBudget, Prepared, skip, hint, write, max_batch_size,
  prepare,
}

-- A BatchResult so far, with the hinted parents and the table.
pub record Run : Type 0 where
  pub processed : ℕ
  pub applied : ℕ
  pub hints : List ℕ
  pub tasks : List JobTask

abbrev pub new_run : List JobTask → Run
new_run tasks = record { processed = 0; applied = 0; hints = []; tasks = tasks }

-- What the environment decides: the answers of DatabaseTime and FindUnboundTargets, and for the k-th
-- candidate whether the Context has ended before it or before its write, how the write's commit is
-- answered, whether the operation's own Context ended, and what other writers did before it.
pub record SettleEnv : Type 0 where
  pub clock : Result Time
  pub targets : Result (List UnboundTarget)
  pub ended : ℕ → Bool
  pub ended_write : ℕ → Bool
  pub reply : ℕ → Reply
  pub operation_ended : ℕ → Bool
  pub others : ℕ → List JobTask → List JobTask

abbrev pub valid_candidate : UnboundCandidate → Bool
valid_candidate c =
    not (c.task_id == 0)
    && not (c.instance_id == 0)
    && not (c.attempt_no == 0)
    && not (is_zero c.attempt_registered_at)

abbrev pub valid_candidates : List UnboundCandidate → Bool
valid_candidates [] = true
valid_candidates (c ∷ cs) = valid_candidate c && valid_candidates cs

abbrev pub candidate_id : UnboundCandidate → ℕ
candidate_id c = c.task_id

-- Every target was requested, and none twice.
unfoldable pub valid_targets : List ℕ → List ℕ → List UnboundTarget → Bool
valid_targets requested seen [] = true
valid_targets requested seen (t ∷ ts) =
    elem t.task_id requested
    && not (elem t.task_id seen)
    && valid_targets requested (t.task_id ∷ seen) ts

unfoldable pub find_target : ℕ → List UnboundTarget → Option UnboundTarget
find_target id [] = none
find_target id (t ∷ ts) = if t.task_id == id then some t else find_target id ts

-- result.Processed++
abbrev pub counted : Run → Run
counted r = record r { processed = r.processed + 1 }

abbrev pub operation_error : Bool → Option Error
operation_error true = some (driver expired)
operation_error false = none

abbrev pub valid_settled : UnboundCandidate → SettledTask → Bool
valid_settled c s =
    s.task_id == c.task_id
    && s.instance_id == c.instance_id
    && s.attempt_no == c.attempt_no
    && (Task.is_retry_waiting s.status || Task.is_failed s.status)

-- The answer of the write; the candidate counts whatever it is.
unfoldable pub settle_answer :
    Bool → UnboundCandidate → Run → List JobTask × Result (Option SettledTask) → Run × Option Error
settle_answer late c r (tasks, err e) =
    (record r { processed = r.processed + 1; tasks = tasks }, some e)
settle_answer late c r (tasks, ok none) =
    (record r { processed = r.processed + 1; tasks = tasks }, operation_error late)
settle_answer late c r (tasks, ok (some s)) =
    if valid_settled c s
    then (
      record r {
        processed = r.processed + 1;
        applied = r.applied + 1;
        hints = c.instance_id ∷ r.hints;
        tasks = tasks;
      },
      operation_error late,
    )
    else (record r { processed = r.processed + 1; tasks = tasks }, some invalid_facts)

unfoldable pub settle_prepared :
    SettleEnv → ℕ → UnboundCandidate → Run → Result Prepared → Run × Option Error
unfolding settle_answer
settle_prepared env k c r (err e) = (r, some e)
settle_prepared env k c r (ok skip) = (counted r, none)
settle_prepared env k c r (ok hint) = (counted (record r { hints = c.instance_id ∷ r.hints }), none)
settle_prepared env k c r (ok (write w)) =
    if env.ended_write k
    then (r, some (driver expired))
    else settle_answer (env.operation_ended k) c r
        (settle_ordinary_unknown pool (env.reply k) w (env.others k r.tasks))

module _ (unmarshal : Snapshot → Option FrozenBudget) (period : Time) (env : SettleEnv) where
  -- One candidate of the loop.
  unfoldable pub settle_one :
      ℕ → UnboundCandidate → List UnboundTarget → Time → Run → Run × Option Error
  unfolding settle_prepared prepare find_target
  settle_one k c targets now r =
      if env.ended k then (r, some (driver expired)) else elim (find_target c.task_id targets) [
        | none ↦ (counted r, none)
        | some t ↦ settle_prepared env k c r (prepare unmarshal period c t now)
      ]

  unfoldable pub settle_each :
      ℕ → List UnboundCandidate → List UnboundTarget → Time → Run → Run × Option Error
  unfolding settle_one
  settle_each k [] targets now r = (r, none)
  settle_each k (c ∷ cs) targets now r =
      let x = settle_one k c targets now r in
      elim (x.1) [ some e ↦ (x.0, some e) | none ↦ settle_each (k + 1) cs targets now (x.0) ]

  unfoldable pub settle_read :
      List UnboundCandidate → List JobTask → Time → List UnboundTarget → Run × Option Error
  unfolding settle_each valid_targets
  settle_read cs tasks now targets =
      let r = new_run tasks in
      if valid_targets (map candidate_id cs) [] targets
      then settle_each 0 cs targets now r
      else (r, some invalid_facts)

  -- SettleBatch; the check of the Context before the reads ends like that of the clock.
  unfoldable pub settle_batch : List UnboundCandidate → List JobTask → Run × Option Error
  unfolding settle_read
  settle_batch cs tasks =
      let r = new_run tasks in
      if not (leb (length cs) max_batch_size)
      then (r, some invalid_argument)
      else if length cs == 0
      then (r, none)
      else if not (valid_candidates cs)
      then (r, some invalid_argument)
      else elim env.clock [
        | err e ↦ (r, some e)
        | ok now ↦ if is_zero now then (r, some invalid_facts) else elim env.targets [
          | err e ↦ (r, some e)
          | ok targets ↦ settle_read cs tasks now targets
        ]
      ]
