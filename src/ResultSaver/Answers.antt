-- ===== src/ResultSaver/Answers.antt =====
-- taskresult/saver.go: what Save answers and leaves behind.
use dogx.Common.{
  ℕ, ◌≡◌, refl, subst, ◌==◌, ◌&&◌, not, true, false, Option, none, some, arith, Bool-cases,
  Option-cases, inl, inr, is_some,
}
use dogx.Model.Task.{JobTask, TaskStatus}
use dogx.Model.Task
use dogx.Database.{Error, ok, err}
use dogx.Database.Updates.{Result-cases}
use dogx.Transaction.{Db}
use dogx.TaskStore.Outcome.{TaskResultWrite}
use dogx.TaskStore.Targets.{TaskResultTarget, find_result_target, check_result_data}
use dogx.ResultSaver.{
  Report, invalid_report, missing_target, ownership_mismatch, stale_attempt, task_closed,
  executor_mismatch, invalid_output, stored_state, unsupported_type, lookup_failed, write_failed,
  probe_failed, Formats, SaveEnv, finished, Decided, write, refused, result_write, is_success,
  is_data_exception, probed, write_answer, written, valid_output, is_other, save_running, owns,
  save_found, has_identities, save_identified, save,
}
use dogx.ResultSaver.Ways.{
  IsCurrent, Found, IsOwned, Drops, unidentified, unknown_task, foreign, unfit_output, replaced,
  closed, taken_over, unread, odd_status, odd_type, undecided, attempted, after, AnswerOf, too_late,
  dropped, over, unusable, confirmed, missed, unfit, unsure, IsProbed, unprobed, sound_contents,
  no_probe,
}

module _ (f : Formats) (env : SaveEnv) (r : Report) where
  module _ (db : Db) (identity : ℕ) (t : TaskResultTarget) (i : IsCurrent f env r db identity t)
      (w : TaskResultWrite) (d : result_write f.unmarshal t r identity ≡ write w) where
    probed-AnswerOf :
        (e : Error)
        → (attempted f env r db w).1 ≡ err e
        → AnswerOf f env r db (probed f env r e (after f env r db w))
    unfolding probed
    probed-AnswerOf e a =
        elim (Bool-cases (
          not env.ended_write
          && is_success r.outcome
          && is_some r.contents
          && is_data_exception e)) [
            | inr n ↦ subst (AnswerOf f env r db) (ground arith) (
                unsure identity t w e (write_failed e) i d a (
                  unprobed (λ k.
                    let x = k.in_time in
                    let y = k.success in
                    let z = k.contents in let u = k.exception in ground arith)))
            | inl n ↦
                let k : IsProbed f env r e = record {
                  in_time = ground arith;
                  success = ground arith;
                  contents = ground arith;
                  exception = ground arith;
                } in
                elim (Result-cases (check_result_data f.is_jsonb r.contents env.probe)) [
                  | inr (p, c) ↦
                      subst (AnswerOf f env r db) (ground arith)
                        (unsure identity t w e (probe_failed e p) i d a (no_probe p k c))
                  | inl (b, c) ↦ elim (Bool-cases b) [
                    | inl q ↦ subst (AnswerOf f env r db) (ground arith) (
                        unsure identity t w e (write_failed e) i d a
                          (sound_contents k (ground arith)))
                    | inr q ↦
                        subst (AnswerOf f env r db) (ground arith)
                          (unfit identity t w e i d a k (ground arith))
                  ]
                ]
          ]

    write_answer-AnswerOf :
        AnswerOf f env r db
          (write_answer f env r t.instance_id (env.others db) (attempted f env r db w))
    unfolding write_answer
    write_answer-AnswerOf = elim (Result-cases (attempted f env r db w).1) [
      | inr (e, a) ↦ subst (AnswerOf f env r db) (ground arith) (probed-AnswerOf e a)
      | inl (b, a) ↦ elim (Bool-cases b) [
        | inl k ↦
            subst (AnswerOf f env r db) (ground arith) (confirmed identity t w i d (ground arith))
        | inr k ↦
            subst (AnswerOf f env r db) (ground arith) (missed identity t w i d (ground arith))
      ]
    ]

  decided-AnswerOf :
      (db : Db) (identity : ℕ) (t : TaskResultTarget) (d : Decided)
      → IsCurrent f env r db identity t
      → result_write f.unmarshal t r identity ≡ d
      → AnswerOf f env r db (written f env r t.instance_id db d)
  unfolding written
  decided-AnswerOf db identity t (refused e) i h = unusable e (undecided identity t e i h)
  decided-AnswerOf db identity t (write w) i h = write_answer-AnswerOf db identity t i w h

  module _ (db : Db) (identity : ℕ) (t : TaskResultTarget) (i : IsOwned f env r db identity t)
      (o : owns r t ≡ true) where
    closed-AnswerOf :
        t.attempt_no ≡ r.attempt_no
        → Task.is_running t.status ≡ false
        → AnswerOf f env r db (finished db t.instance_id false task_closed)
    closed-AnswerOf a n = over t task_closed (closed identity i a n)

    current-AnswerOf :
        t.attempt_no ≡ r.attempt_no
        → t.status ≡ TaskStatus.running
        → is_other identity t.executor_instance_id ≡ false
        → AnswerOf f env r db (save_running f env r identity db t TaskStatus.running)
    unfolding save_running
    current-AnswerOf a h x = elim (Bool-cases (Task.is_ordinary t.task_type)) [
      | inr y ↦
          subst (AnswerOf f env r db) (ground arith)
            (unusable unsupported_type (odd_type identity t i a h x y))
      | inl y ↦ elim (Bool-cases (valid_output f r)) [
        | inr v ↦
            subst (AnswerOf f env r db) (ground arith)
              (dropped invalid_output (unfit_output identity t i a h x y v))
        | inl v ↦
            let c : IsCurrent f env r db identity t = record {
              in_time = i.in_time;
              known = i.known;
              named = i.named;
              found = i.found;
              owned = o;
              attempt = a;
              running = h;
              executor = x;
              ordinary = y;
              output = v;
            } in
            subst (AnswerOf f env r db) (ground arith)
              (decided-AnswerOf db identity t (result_write f.unmarshal t r identity) c refl)
      ]
    ]

    running-AnswerOf :
        t.attempt_no ≡ r.attempt_no
        → t.status ≡ TaskStatus.running
        → AnswerOf f env r db (save_running f env r identity db t TaskStatus.running)
    unfolding save_running
    running-AnswerOf a h = elim (Option-cases t.executor_instance_id) [
      | inl n ↦ current-AnswerOf a h (ground arith)
      | inr (executor, q) ↦ elim (Bool-cases (executor == identity)) [
        | inl x ↦ current-AnswerOf a h (ground arith)
        | inr x ↦
            subst (AnswerOf f env r db) (ground arith)
              (over t executor_mismatch (taken_over identity executor i a h q (ground arith)))
      ]
    ]

    status-AnswerOf :
        (s : TaskStatus)
        → t.status ≡ s
        → t.attempt_no ≡ r.attempt_no
        → AnswerOf f env r db (save_running f env r identity db t s)
    unfolding save_running
    status-AnswerOf (TaskStatus.unknown n) h a =
        unusable stored_state (odd_status identity t n i a h)
    status-AnswerOf TaskStatus.waiting h a = closed-AnswerOf a (ground arith)
    status-AnswerOf TaskStatus.retry_waiting h a = closed-AnswerOf a (ground arith)
    status-AnswerOf TaskStatus.succeeded h a = closed-AnswerOf a (ground arith)
    status-AnswerOf TaskStatus.failed h a = closed-AnswerOf a (ground arith)
    status-AnswerOf TaskStatus.canceled h a = closed-AnswerOf a (ground arith)
    status-AnswerOf TaskStatus.running h a = running-AnswerOf a h

  module _ (db : Db) (identity : ℕ) (t : TaskResultTarget) (e : env.ended ≡ false)
      (k : has_identities r ≡ true) (u : f.uuid4 r.executor_instance_id ≡ some identity)
      (l : Found f env r db t) where
    foreign-Drops : owns r t ≡ false → Drops f env r db ownership_mismatch
    foreign-Drops o =
        foreign t (e, k, (identity, u)) l
          (elim (Bool-cases (t.task_id == r.task_id)) [
            | inr a ↦ inl (ground arith)
            | inl a ↦ elim (Bool-cases (t.instance_id == r.instance_id)) [
              | inr b ↦ inr (inl (ground arith))
              | inl b ↦ elim (Bool-cases (t.job_id == r.job_id)) [
                | inr c ↦ inr (inr (inl (ground arith)))
                | inl c ↦ inr (inr (inr (ground arith)))
              ]
            ]
          ])

    found-AnswerOf : AnswerOf f env r db (save_found f env r identity db t)
    unfolding save_found
    found-AnswerOf = elim (Bool-cases (owns r t)) [
      | inr o ↦
          subst (AnswerOf f env r db) (ground arith) (dropped ownership_mismatch (foreign-Drops o))
      | inl o ↦
          let i : IsOwned f env r db identity t = record {
            in_time = e;
            known = k;
            named = u;
            found = l;
            task = ground arith;
            parent = ground arith;
            job = ground arith;
            group = ground arith;
          } in
          elim (Bool-cases (t.attempt_no == r.attempt_no)) [
            | inr a ↦
                subst (AnswerOf f env r db) (ground arith)
                  (over t stale_attempt (replaced identity i (ground arith)))
            | inl a ↦
                subst (AnswerOf f env r db) (ground arith)
                  (status-AnswerOf db identity t i o t.status refl (ground arith))
          ]
    ]

  found_target-AnswerOf :
      (db : Db) (identity : ℕ) (o : Option TaskResultTarget)
      → env.ended ≡ false
      → has_identities r ≡ true
      → f.uuid4 r.executor_instance_id ≡ some identity
      → find_result_target r.task_id env.lookup db.instances db.tasks ≡ ok o
      → AnswerOf f env r db (save_identified f env r identity db)
  unfolding save_identified
  found_target-AnswerOf db identity none e k u l =
      subst (AnswerOf f env r db) (ground arith)
        (dropped missing_target (unknown_task (e, k, (identity, u)) l))
  found_target-AnswerOf db identity (some t) e k u l =
      subst (AnswerOf f env r db) (ground arith) (found-AnswerOf db identity t e k u l)

  identified-AnswerOf :
      (db : Db) (identity : ℕ)
      → env.ended ≡ false
      → has_identities r ≡ true
      → f.uuid4 r.executor_instance_id ≡ some identity
      → AnswerOf f env r db (save_identified f env r identity db)
  unfolding save_identified
  identified-AnswerOf db identity z k u =
      elim (Result-cases (find_result_target r.task_id env.lookup db.instances db.tasks)) [
        | inr (e, l) ↦
            subst (AnswerOf f env r db) (ground arith)
              (unusable (lookup_failed e) (unread e (z, k, (identity, u)) l))
        | inl (o, l) ↦ found_target-AnswerOf db identity o z k u l
      ]

  -- Whatever the report, the tables and the environment, Save answers in one of these ways: its budget
  -- has ended, or an error before any write, with the report retained, the tables as they were and no
  -- hint; the report is dropped for a fault of its own (its identities, no such Task, not its Task, or
  -- an output that may not be stored), with neither change nor hint; its attempt is over (another is
  -- registered, the Task does not run, or it is bound to another executor), with a hint to the parent
  -- that owns it and no change; or the report is for the running ordinary attempt
  -- that the lookup found and is written as its outcome and the frozen budget say,
  -- once, on the tables of that moment, and is saved, met no row, cannot be stored by the database's
  -- own test of its contents, or is retained with the error of the write, or of the write and that
  -- test when this one fails too, and no hint. The test is made exactly when a data exception refused
  -- the contents of a success and the Context has not ended.
  pub save-AnswerOf : (db : Db) → AnswerOf f env r db (save f env r db)
  unfolding save
  save-AnswerOf db = elim (Bool-cases env.ended) [
    | inl e ↦ subst (AnswerOf f env r db) (ground arith) (too_late e)
    | inr e ↦ elim (Bool-cases (has_identities r)) [
      | inr k ↦
          subst (AnswerOf f env r db) (ground arith)
            (dropped invalid_report (unidentified e (inl k)))
      | inl k ↦ elim (Option-cases (f.uuid4 r.executor_instance_id)) [
        | inl u ↦
            subst (AnswerOf f env r db) (ground arith)
              (dropped invalid_report (unidentified e (inr u)))
        | inr (identity, u) ↦
            subst (AnswerOf f env r db) (ground arith) (identified-AnswerOf db identity e k u)
      ]
    ]
  ]
