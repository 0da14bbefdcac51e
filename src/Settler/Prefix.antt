-- ===== src/Settler/Prefix.antt =====
-- taskrecovery/settler.go: what the counts of a batch mean.
use dogx.Common.{
  ℕ, suc, ◌+◌, ◌≡◌, ◌≤◌, refl, subst, ◌==◌, leb, Bool, true, false, Option, none, some, is_none,
  List, [], ◌∷◌, length, map, arith, Bool-cases, Option-cases, inl, inr, ◌⊎◌,
}
use dogx.Model.{Time, is_zero, Snapshot}
use dogx.Model.Task.{JobTask}
use dogx.Database.{Error, driver, expired, invalid_argument, invalid_facts, Result, ok, err, pool}
use dogx.TaskStore.Outcome.{SettledTask, settle_ordinary_unknown}
use dogx.Settler.{
  UnboundCandidate, UnboundTarget, FrozenBudget, Prepared, skip, hint, write, max_batch_size,
  prepare,
}
use dogx.Database.Updates.{Result-cases}
use dogx.Settler.Batch.{
  Run, SettleEnv, valid_candidates, valid_targets, candidate_id, find_target, settle_answer,
  new_run, counted, settle_prepared, settle_one, settle_each, settle_read, settle_batch,
}

-- One candidate: it counts once, or not at all and ends the batch; an applied one counts.
pub record IsOne (r : Run) (x : Run × Option Error) : Type 0 where
  pub counts :
      (x.0.processed ≡ r.processed + 1) ⊎ ((x.0.processed ≡ r.processed) × (is_none x.1 ≡ false))
  pub applies :
      (x.0.applied ≡ r.applied)
      ⊎ ((x.0.applied ≡ r.applied + 1) × (x.0.processed ≡ r.processed + 1))

stopped-IsOne : (r : Run) (e : Error) → IsOne r (r, some e)
stopped-IsOne r e = record { counts = inr (refl, refl); applies = inl refl }

answer-IsOne :
    (late : Bool) (c : UnboundCandidate) (r : Run) (a : List JobTask × Result (Option SettledTask))
    → IsOne r (settle_answer late c r a)
unfolding settle_answer
answer-IsOne late c r (tasks, err e) = record { counts = inl refl; applies = inl refl }
answer-IsOne late c r (tasks, ok none) = record { counts = inl refl; applies = inl refl }
answer-IsOne late c r (tasks, ok (some s)) = record {
  counts = ground arith;
  applies = ground arith;
}

prepared-IsOne :
    (env : SettleEnv) (k : ℕ) (c : UnboundCandidate) (r : Run) (p : Result Prepared)
    → IsOne r (settle_prepared env k c r p)
unfolding settle_prepared
prepared-IsOne env k c r (err e) = record { counts = inr (refl, refl); applies = inl refl }
prepared-IsOne env k c r (ok skip) = record { counts = inl refl; applies = inl refl }
prepared-IsOne env k c r (ok hint) = record { counts = inl refl; applies = inl refl }
prepared-IsOne env k c r (ok (write w)) = elim (Bool-cases (env.ended_write k)) [
  | inl e ↦ subst (IsOne r) (ground arith) (stopped-IsOne r (driver expired))
  | inr e ↦ subst (IsOne r) (ground arith) (
      answer-IsOne (env.operation_ended k) c r
        (settle_ordinary_unknown pool (env.reply k) w (env.others k r.tasks)))
]

counted-IsOne : (r : Run) → IsOne r (counted r, none)
counted-IsOne r = record { counts = inl refl; applies = inl refl }

-- Some candidates: no more count than there are, all when there is no error, and no more were applied
-- than counted.
pub record IsPrefix (n : ℕ) (r : Run) (x : Run × Option Error) : Type 0 where
  pub bounded : x.0.processed ≤ r.processed + n
  pub whole : is_none x.1 ≡ true → x.0.processed ≡ r.processed + n
  pub applied_counts : x.0.applied + r.processed ≤ r.applied + x.0.processed

none-IsPrefix : (r : Run) → IsPrefix 0 r (r, none)
none-IsPrefix r = record {
  bounded = omega arith;
  whole = λ _. omega arith;
  applied_counts = omega arith;
}

stopped-IsPrefix : (n : ℕ) (r : Run) (e : Error) → IsPrefix n r (r, some e)
stopped-IsPrefix n r e = record {
  bounded = omega arith;
  whole = λ h. cc;
  applied_counts = omega arith;
}

module _ (unmarshal : Snapshot → Option FrozenBudget) (period : Time) (env : SettleEnv) where
  settle_one-IsOne :
      (k : ℕ) (c : UnboundCandidate) (targets : List UnboundTarget) (now : Time) (r : Run)
      → IsOne r (settle_one unmarshal period env k c targets now r)
  unfolding settle_one
  settle_one-IsOne k c targets now r = elim (Bool-cases (env.ended k)) [
    | inl e ↦ subst (IsOne r) (ground arith) (stopped-IsOne r (driver expired))
    | inr e ↦ elim (Option-cases (find_target c.task_id targets)) [
      | inl f ↦ subst (IsOne r) (ground arith) (counted-IsOne r)
      | inr (t, f) ↦
          subst (IsOne r) (ground arith)
            (prepared-IsOne env k c r (prepare unmarshal period c t now))
    ]
  ]

  each-IsPrefix :
      (k : ℕ) (cs : List UnboundCandidate) (targets : List UnboundTarget) (now : Time) (r : Run)
      → IsPrefix (length cs) r (settle_each unmarshal period env k cs targets now r)
  unfolding settle_each
  each-IsPrefix k [] targets now r = none-IsPrefix r
  each-IsPrefix k (c ∷ cs) targets now r =
      let o = settle_one-IsOne k c targets now r in
      let x = settle_one unmarshal period env k c targets now r in
      elim (Option-cases x.1) [
        | inr (e, p) ↦ subst (IsPrefix (length (c ∷ cs)) r) (ground arith) (
            let y : IsPrefix (suc (length cs)) r (x.0, some e) = record {
              bounded = ground (arith, o.counts);
              whole = λ h. cc;
              applied_counts = ground (arith, o.counts, o.applies);
            } in
            y)
        | inl p ↦
            let rest = each-IsPrefix (k + 1) cs targets now x.0 in
            subst (IsPrefix (length (c ∷ cs)) r) (ground arith) (
              let y : IsPrefix (suc (length cs)) r
                  (settle_each unmarshal period env (k + 1) cs targets now x.0) =
                record {
                  bounded = ground (arith, o.counts, rest.bounded);
                  whole = λ h. ground (arith, o.counts, rest.whole h);
                  applied_counts = ground (arith, o.counts, o.applies, rest.applied_counts);
                } in
              y)
      ]

  read-IsPrefix :
      (cs : List UnboundCandidate) (tasks : List JobTask) (now : Time)
      (targets : List UnboundTarget)
      → IsPrefix (length cs) (new_run tasks) (settle_read unmarshal period env cs tasks now targets)
  unfolding settle_read
  read-IsPrefix cs tasks now targets =
      elim (Bool-cases (valid_targets (map candidate_id cs) [] targets)) [
        | inl v ↦
            subst (IsPrefix (length cs) (new_run tasks)) (ground arith)
              (each-IsPrefix 0 cs targets now (new_run tasks))
        | inr v ↦
            subst (IsPrefix (length cs) (new_run tasks)) (ground arith)
              (stopped-IsPrefix (length cs) (new_run tasks) invalid_facts)
      ]

  -- A batch, on any table and whatever the environment answers, counts no more candidates than it was
  -- given, and all of them when it ends without an error; it applies no more settlements than it
  -- counts candidates.
  pub settle_batch-IsPrefix :
      (cs : List UnboundCandidate) (tasks : List JobTask)
      → IsPrefix (length cs) (new_run tasks) (settle_batch unmarshal period env cs tasks)
  unfolding settle_batch
  settle_batch-IsPrefix cs tasks =
      let r = new_run tasks in
      let n = length cs in
      elim (Bool-cases (leb (length cs) max_batch_size)) [
        | inr l ↦ subst (IsPrefix n r) (ground arith) (stopped-IsPrefix n r invalid_argument)
        | inl l ↦ elim (Bool-cases (length cs == 0)) [
          | inl z ↦
              let m : 0 ≡ length cs = ground arith in
              subst (IsPrefix n r) (ground arith)
                (subst (λ k. IsPrefix k r (r, none)) m (none-IsPrefix r))
          | inr z ↦ elim (Bool-cases (valid_candidates cs)) [
            | inr v ↦ subst (IsPrefix n r) (ground arith) (stopped-IsPrefix n r invalid_argument)
            | inl v ↦ elim (Result-cases env.clock) [
              | inr (e, p) ↦ subst (IsPrefix n r) (ground arith) (stopped-IsPrefix n r e)
              | inl (now, p) ↦ elim (Bool-cases (is_zero now)) [
                | inl q ↦ subst (IsPrefix n r) (ground arith) (stopped-IsPrefix n r invalid_facts)
                | inr q ↦ elim (Result-cases env.targets) [
                  | inr (e, t) ↦ subst (IsPrefix n r) (ground arith) (stopped-IsPrefix n r e)
                  | inl (targets, t) ↦
                      subst (IsPrefix n r) (ground arith) (read-IsPrefix cs tasks now targets)
                ]
              ]
            ]
          ]
        ]
      ]
