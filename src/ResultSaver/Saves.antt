-- ===== src/ResultSaver/Saves.antt =====
-- taskresult/saver.go: a released report was stored by one row, or has changed nothing.
use dogx.Common.{
  ℕ, ◌≤◌, ◌≡◌, ◌≢◌, refl, ap, ◌∙◌, ◌==◌, Bool, true, false, Option, some, List, [], ◌∷◌, arith,
  Bool-cases, inl, inr, ◌⊎◌,
}
use dogx.Model.Task.{JobTask}
use dogx.Database.{
  Fault, postgres, transport, expired, SqlState, Error, driver, ok, err, Reply, done, aborted,
  unconfirmed, pool, update, affected,
}
use dogx.Database.Updates.{Unique, away, affected-zero, update-eq_of_none}
use dogx.Transaction.{Db}
use dogx.TaskStore.Outcome.{
  TaskResultWrite, accepts_result, resulted, valid_result_write, save_result,
}
use dogx.TaskStore.Targets.{TaskResultTarget}
use dogx.ResultSaver.{
  Report, Reason, released, Formats, SaveEnv, Answered, write, result_write, save,
  is_data_exception,
}
use dogx.ResultSaver.Ways.{
  IsCurrent, AnswerOf, too_late, dropped, over, unusable, confirmed, missed, unfit, unsure,
}
use dogx.ResultSaver.Answers.{save-AnswerOf}

-- The write that a report led to: what was decided, the one row, and the tables after it.
pub record Stored (f : Formats) (env : SaveEnv) (r : Report) (db db' : Db) (hint : Option ℕ)
    : Type 0 where
  pub identity : ℕ
  pub target : TaskResultTarget
  pub decision : TaskResultWrite
  pub current : IsCurrent f env r db identity target
  pub decided : result_write f.unmarshal target r identity ≡ write decision
  pub one_row : affected (accepts_result decision) (env.others db).tasks ≡ 1
  pub tables : db' ≡ record (env.others db) {
    tasks =
        update (accepts_result decision) (resulted decision env.processed_at) (env.others db).tasks;
  }
  pub hinted : hint ≡ some target.instance_id

save_result-ok :
    (is_uuid4 : ℕ → Bool) (reply : Reply) (now : ℕ) (w : TaskResultWrite) (rows : List JobTask)
    (b : Bool)
    → (save_result is_uuid4 pool reply now w rows).1 ≡ ok b
    → ((affected (accepts_result w) rows == 1) ≡ b)
      × ((save_result is_uuid4 pool reply now w rows).0
          ≡ update (accepts_result w) (resulted w now) rows)
unfolding save_result
save_result-ok is_uuid4 done now w rows b h = ground arith
save_result-ok is_uuid4 (aborted f) now w rows b h = ground arith
save_result-ok is_uuid4 (unconfirmed f) now w rows b h = ground arith

abbrev task_key : JobTask → ℕ
task_key t = t.id

accepts_result-key :
    (w : TaskResultWrite) (t : JobTask) → accepts_result w t ≡ true → t.id ≡ w.task_id
unfolding accepts_result
accepts_result-key w t h = ground arith

affected_once :
    (w : TaskResultWrite) (rows : List JobTask)
    → Unique task_key rows
    → affected (accepts_result w) rows ≤ 1
affected_once w [] u = omega arith
affected_once w (t ∷ ts) u = elim (Bool-cases (accepts_result w t)) [
  | inr e ↦ rw e (affected_once w ts u.1)
  | inl e ↦ rw e (
      let z = affected-zero (accepts_result w) ts (
        away task_key w.task_id (accepts_result w) (accepts_result-key w) t
          (accepts_result-key w t e) ts u.0) in
      omega (arith, z))
]

missed-unchanged :
    (is_uuid4 : ℕ → Bool) (reply : Reply) (now : ℕ) (w : TaskResultWrite) (rows : List JobTask)
    → Unique task_key rows
    → (save_result is_uuid4 pool reply now w rows).1 ≡ ok false
    → (save_result is_uuid4 pool reply now w rows).0 ≡ rows
missed-unchanged is_uuid4 reply now w rows u h =
    let k = save_result-ok is_uuid4 reply now w rows false h in
    k.1
    ∙ update-eq_of_none (accepts_result w) (resulted w now) rows
        (ground (arith, k.0, affected_once w rows u))

data_fault :
    (f : Fault) → is_data_exception (driver f) ≡ true → f ≡ postgres SqlState.data_exception
data_fault (postgres SqlState.data_exception) h = refl
data_fault (postgres SqlState.integrity_violation) h = cc
data_fault (postgres SqlState.access_rule_violation) h = cc
data_fault (postgres SqlState.lock_not_available) h = cc
data_fault (postgres (SqlState.other n)) h = cc
data_fault transport h = cc
data_fault expired h = cc

-- A write that failed with a data exception and was confirmed or rolled back has changed nothing.
unfit-unchanged :
    (is_uuid4 : ℕ → Bool) (reply : Reply) (now : ℕ) (w : TaskResultWrite) (rows : List JobTask)
    (e : Error)
    → reply ≢ unconfirmed (postgres SqlState.data_exception)
    → (save_result is_uuid4 pool reply now w rows).1 ≡ err e
    → is_data_exception e ≡ true
    → (save_result is_uuid4 pool reply now w rows).0 ≡ rows
unfolding save_result
unfit-unchanged is_uuid4 done now w rows e n h d = ground arith
unfit-unchanged is_uuid4 (aborted f) now w rows e n h d = ground arith
unfit-unchanged is_uuid4 (unconfirmed f) now w rows e n h d =
    elim (Bool-cases (valid_result_write is_uuid4 w)) [
      | inr v ↦ ground arith
      | inl v ↦ absurd (n (ap unconfirmed (data_fault f (ground arith))))
    ]

module _ (f : Formats) (env : SaveEnv) (r : Report) (db db' : Db) (hint : Option ℕ) where
  answer-Stored :
      (reason : Reason) (a : Answered)
      → AnswerOf f env r db a
      → a ≡ (db', released (record { applied = true; reason = reason }), hint)
      → Stored f env r db db' hint
  answer-Stored reason _ (too_late e) h = absurd (ground arith)
  answer-Stored reason _ (dropped x e) h = absurd (ground arith)
  answer-Stored reason _ (over t x e) h = absurd (ground arith)
  answer-Stored reason _ (unusable e u') h = absurd (ground arith)
  answer-Stored reason _ (missed i t w c d a) h = absurd (ground arith)
  answer-Stored reason _ (unfit i t w e c d a x p) h = absurd (ground arith)
  answer-Stored reason _ (unsure i t w e s c d a v) h = absurd (ground arith)
  answer-Stored reason _ (confirmed i t w c d a) h =
      let k = save_result-ok f.is_uuid4 env.reply env.processed_at w (env.others db).tasks true a in
      record {
        identity = i;
        target = t;
        decision = w;
        current = c;
        decided = d;
        one_row = ground (arith, k.0);
        tables = ground (arith, k.1);
        hinted = ground arith;
      }

  -- A report that Save releases as applied was for the running ordinary attempt that its lookup found,
  -- of the report's own identities, and the write that its outcome and the frozen budget decide has
  -- changed exactly one row of the table of that moment and nothing else; its parent is hinted.
  pub save-Stored :
      (reason : Reason)
      → save f env r db ≡ (db', released (record { applied = true; reason = reason }), hint)
      → Stored f env r db db' hint
  save-Stored reason h = answer-Stored reason (save f env r db) (save-AnswerOf f env r db) h

  answer_unchanged :
      (reason : Reason) (a : Answered)
      → Unique task_key (env.others db).tasks
      → env.reply ≢ unconfirmed (postgres SqlState.data_exception)
      → AnswerOf f env r db a
      → a ≡ (db', released (record { applied = false; reason = reason }), hint)
      → (db' ≡ db) ⊎ (db' ≡ env.others db)
  answer_unchanged reason _ u n (too_late e) h = absurd (ground arith)
  answer_unchanged reason _ u n (dropped x e) h = inl (ground arith)
  answer_unchanged reason _ u n (over t x e) h = inl (ground arith)
  answer_unchanged reason _ u n (unusable e u') h = absurd (ground arith)
  answer_unchanged reason _ u n (confirmed i t w c d a) h = absurd (ground arith)
  answer_unchanged reason _ u n (unsure i t w e s c d a v) h = absurd (ground arith)
  answer_unchanged reason _ u n (missed i t w c d a) h =
      let k = missed-unchanged f.is_uuid4 env.reply env.processed_at w (env.others db).tasks u a in
      inr (ground (arith, k))
  answer_unchanged reason _ u n (unfit i t w e c d a x p) h =
      let k =
        unfit-unchanged f.is_uuid4 env.reply env.processed_at w (env.others db).tasks e n a
          x.exception in
      inr (ground (arith, k))

  -- A report that Save releases as not applied has changed nothing: the tables are those of its lookup
  -- or those that others made of them before the write, if Task IDs are distinct and a data exception
  -- of the write is not one whose commit nevertheless took place.
  pub save-unchanged :
      (reason : Reason)
      → Unique task_key (env.others db).tasks
      → env.reply ≢ unconfirmed (postgres SqlState.data_exception)
      → save f env r db ≡ (db', released (record { applied = false; reason = reason }), hint)
      → (db' ≡ db) ⊎ (db' ≡ env.others db)
  save-unchanged reason u n h =
      answer_unchanged reason (save f env r db) u n (save-AnswerOf f env r db) h
