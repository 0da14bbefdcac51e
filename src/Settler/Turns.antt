-- ===== src/Settler/Turns.antt =====
-- taskrecovery/settler.go: what one candidate of a batch leaves.
use dogx.Common.{
  ℕ, ◌+◌, ◌≡◌, refl, subst, Bool, true, false, Option, none, some, is_none, List, ◌∷◌, arith,
  Bool-cases, Option-cases, inl, inr, ◌⊎◌,
}
use dogx.Model.{Time, Snapshot}
use dogx.Model.Task.{JobTask}
use dogx.Database.{Error, driver, expired, invalid_facts, Result, ok, err, pool}
use dogx.TaskStore.Outcome.{SettledTask, UnknownSettlement, settle_ordinary_unknown}
use dogx.Settler.{
  UnboundCandidate, UnboundTarget, FrozenBudget, Prepared, skip, hint, write, prepare,
}
use dogx.Database.Updates.{Result-cases}
use dogx.Settler.Batch.{
  Run, SettleEnv, find_target, settle_answer, operation_error, valid_settled, settle_prepared,
  settle_one,
}

module _ (unmarshal : Snapshot → Option FrozenBudget) (period : Time) (env : SettleEnv) where
  -- The k-th candidate's write, on the table of that moment.
  abbrev pub write_reply : ℕ → Run → UnknownSettlement → List JobTask × Result (Option SettledTask)
  write_reply k r w = settle_ordinary_unknown pool (env.reply k) w (env.others k r.tasks)

  -- What one candidate does to the run, and whether it is processed.
  pub data Turn (targets : List UnboundTarget) (now : Time) (k : ℕ) (c : UnboundCandidate) (r : Run)
      : Run × Option Error → Bool → Type 0 where
    context_ended : env.ended k ≡ true → Turn targets now k c r (r, some (driver expired)) false
    unprepared :
        (t : UnboundTarget) (e : Error)
        → env.ended k ≡ false
        → find_target c.task_id targets ≡ some t
        → prepare unmarshal period c t now ≡ err e
        → Turn targets now k c r (r, some e) false
    write_ended :
        (t : UnboundTarget) (w : UnknownSettlement)
        → env.ended k ≡ false
        → find_target c.task_id targets ≡ some t
        → prepare unmarshal period c t now ≡ ok (write w)
        → env.ended_write k ≡ true
        → Turn targets now k c r (r, some (driver expired)) false
    no_target :
        env.ended k ≡ false
        → find_target c.task_id targets ≡ none
        → Turn targets now k c r (record r { processed = r.processed + 1 }, none) true
    skipped :
        (t : UnboundTarget)
        → env.ended k ≡ false
        → find_target c.task_id targets ≡ some t
        → prepare unmarshal period c t now ≡ ok skip
        → Turn targets now k c r (record r { processed = r.processed + 1 }, none) true
    hinted :
        (t : UnboundTarget)
        → env.ended k ≡ false
        → find_target c.task_id targets ≡ some t
        → prepare unmarshal period c t now ≡ ok hint
        → Turn targets now k c r
            (record r { processed = r.processed + 1; hints = c.instance_id ∷ r.hints }, none)
            true
    write_failed :
        (t : UnboundTarget) (w : UnknownSettlement) (e : Error)
        → env.ended k ≡ false
        → find_target c.task_id targets ≡ some t
        → prepare unmarshal period c t now ≡ ok (write w)
        → env.ended_write k ≡ false
        → (write_reply k r w).1 ≡ err e
        → Turn targets now k c r
            (record r { processed = r.processed + 1; tasks = (write_reply k r w).0 }, some e)
            true
    no_row :
        (t : UnboundTarget) (w : UnknownSettlement)
        → env.ended k ≡ false
        → find_target c.task_id targets ≡ some t
        → prepare unmarshal period c t now ≡ ok (write w)
        → env.ended_write k ≡ false
        → (write_reply k r w).1 ≡ ok none
        → Turn targets now k c r
            (
              record r { processed = r.processed + 1; tasks = (write_reply k r w).0 },
              operation_error (env.operation_ended k),
            )
            true
    odd_row :
        (t : UnboundTarget) (w : UnknownSettlement) (s : SettledTask)
        → env.ended k ≡ false
        → find_target c.task_id targets ≡ some t
        → prepare unmarshal period c t now ≡ ok (write w)
        → env.ended_write k ≡ false
        → (write_reply k r w).1 ≡ ok (some s)
        → valid_settled c s ≡ false
        → Turn targets now k c r
            (
              record r { processed = r.processed + 1; tasks = (write_reply k r w).0 },
              some invalid_facts,
            )
            true
    applied :
        (t : UnboundTarget) (w : UnknownSettlement) (s : SettledTask)
        → env.ended k ≡ false
        → find_target c.task_id targets ≡ some t
        → prepare unmarshal period c t now ≡ ok (write w)
        → env.ended_write k ≡ false
        → (write_reply k r w).1 ≡ ok (some s)
        → valid_settled c s ≡ true
        → Turn targets now k c r
            (
              record r {
                processed = r.processed + 1;
                applied = r.applied + 1;
                hints = c.instance_id ∷ r.hints;
                tasks = (write_reply k r w).0;
              },
              operation_error (env.operation_ended k),
            )
            true

  module _ (targets : List UnboundTarget) (now : Time) (k : ℕ) (c : UnboundCandidate)
      (r : Run) where
    -- A candidate's turn, either way.
    abbrev pub IsTurn : Run × Option Error → Type 0
    IsTurn x = (b : Bool) × Turn targets now k c r x b

    answer-IsTurn :
        (t : UnboundTarget) (w : UnknownSettlement)
        → env.ended k ≡ false
        → find_target c.task_id targets ≡ some t
        → prepare unmarshal period c t now ≡ ok (write w)
        → env.ended_write k ≡ false
        → IsTurn (settle_answer (env.operation_ended k) c r (write_reply k r w))
    unfolding settle_answer
    answer-IsTurn t w g f p q = elim (Result-cases (write_reply k r w).1) [
      | inr (e, a) ↦ subst IsTurn (ground arith) (true, write_failed t w e g f p q a)
      | inl (o, a) ↦ elim (Option-cases o) [
        | inl n ↦ subst IsTurn (ground arith) (true, no_row t w g f p q (ground arith))
        | inr (s, z) ↦ elim (Bool-cases (valid_settled c s)) [
          | inl v ↦ subst IsTurn (ground arith) (true, applied t w s g f p q (ground arith) v)
          | inr v ↦ subst IsTurn (ground arith) (true, odd_row t w s g f p q (ground arith) v)
        ]
      ]
    ]

    prepared-IsTurn :
        (t : UnboundTarget) (p : Result Prepared)
        → env.ended k ≡ false
        → find_target c.task_id targets ≡ some t
        → prepare unmarshal period c t now ≡ p
        → IsTurn (settle_prepared env k c r p)
    unfolding settle_prepared
    prepared-IsTurn t (err e) g f p = (false, unprepared t e g f p)
    prepared-IsTurn t (ok skip) g f p = (true, skipped t g f p)
    prepared-IsTurn t (ok hint) g f p = (true, hinted t g f p)
    prepared-IsTurn t (ok (write w)) g f p = elim (Bool-cases (env.ended_write k)) [
      | inl e ↦ subst IsTurn (ground arith) (false, write_ended t w g f p e)
      | inr e ↦ subst IsTurn (ground arith) (answer-IsTurn t w g f p e)
    ]

    pub settle_one-IsTurn : IsTurn (settle_one unmarshal period env k c targets now r)
    unfolding settle_one
    settle_one-IsTurn = elim (Bool-cases (env.ended k)) [
      | inl e ↦ subst IsTurn (ground arith) (false, context_ended e)
      | inr e ↦ elim (Option-cases (find_target c.task_id targets)) [
        | inl f ↦ subst IsTurn (ground arith) (true, no_target e f)
        | inr (t, f) ↦
            subst IsTurn (ground arith)
              (prepared-IsTurn t (prepare unmarshal period c t now) e f refl)
      ]
    ]

  pub Turn-counts :
      (targets : List UnboundTarget) (now : Time) (k : ℕ) (c : UnboundCandidate) (r : Run)
      (x : Run × Option Error) (b : Bool)
      → Turn targets now k c r x b
      → ((b ≡ true) × (x.0.processed ≡ r.processed + 1))
        ⊎ ((b ≡ false) × (x.0.processed ≡ r.processed) × (is_none x.1 ≡ false))
  Turn-counts targets now k c r _ _ (context_ended e) = inr (refl, refl, refl)
  Turn-counts targets now k c r _ _ (unprepared t e g f p) = inr (refl, refl, refl)
  Turn-counts targets now k c r _ _ (write_ended t w g f p e) = inr (refl, refl, refl)
  Turn-counts targets now k c r _ _ (no_target g f) = inl (refl, refl)
  Turn-counts targets now k c r _ _ (skipped t g f p) = inl (refl, refl)
  Turn-counts targets now k c r _ _ (hinted t g f p) = inl (refl, refl)
  Turn-counts targets now k c r _ _ (write_failed t w e g f p q a) = inl (refl, refl)
  Turn-counts targets now k c r _ _ (no_row t w g f p q a) = inl (refl, refl)
  Turn-counts targets now k c r _ _ (odd_row t w s g f p q a v) = inl (refl, refl)
  Turn-counts targets now k c r _ _ (applied t w s g f p q a v) = inl (refl, refl)
