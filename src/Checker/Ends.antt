-- ===== src/Checker/Ends.antt =====
-- instancecheck/checker.go: when a check completes an Instance, when it asks for a timeout, when it
-- does neither, and when it fails.
use dogx.Common.{
  ℕ, ◌≡◌, refl, subst, ◌==◌, ltb, Bool, true, false, Option, arith, Bool-cases, Option-cases, inl,
  inr,
}
use dogx.Model.{Time, is_zero, Snapshot}
use dogx.Model.Task.{TaskStatus}
use dogx.Model.Instance
use dogx.Model.Instance.{InstanceStatus}
use dogx.Database.{driver, expired, invalid_argument, invalid_facts, invalid_config, Result, ok}
use dogx.Database.Updates.{Result-cases}
use dogx.Transaction.{Db}
use dogx.Checker.{
  stopping, InstanceCompletion, CheckConfig, CheckEnv, check_config, resume_events, timed,
  not_ready_yet, completed_with, check_task, check_ordinary, check_decoded, check_parent, check,
}
use dogx.Checker.Configs.{ConfigOf, sharded_round, ordinary_round, unusable, check_config-ConfigOf}
use dogx.Checker.Facts.{
  IsFound, IsTimed, IsRound, HasTask, IsOpen, no_id, context_ended, unread, other_row, odd_status,
  odd_config, odd_task, no_deadline, late_context, no_clock, zero_clock, Ends, failed, missing,
  not_started, sharded, ended, resumes, unready, times_out, succeeds, fails,
}

module _ (unmarshal : Snapshot → Option CheckConfig) (with_stop : Bool) (env : CheckEnv)
    (id : ℕ) where
  module _ (db : Db) (f : InstanceCompletion) where
    module _ (r : IsRound unmarshal with_stop env id f) where
      same_id : f.id ≡ id
      same_id = let g = r.found in let s = g.same in ground arith

      late-Ends :
          (deadline : Time)
          → IsOpen unmarshal with_stop env id f
          → IsTimed unmarshal with_stop env id f deadline
          → (now : Time) → env.clock ≡ ok now
          → Ends unmarshal with_stop env id db (timed env f db deadline now)
      unfolding timed
      late-Ends deadline u w now q = elim (Bool-cases (is_zero now)) [
        | inl z ↦
            subst (Ends unmarshal with_stop env id db) (ground arith)
              (failed invalid_facts (zero_clock f deadline r u w (ground arith)))
        | inr z ↦ elim (Bool-cases (ltb now deadline)) [
          | inl early ↦
              subst (Ends unmarshal with_stop env id db) (ground arith)
                (unready f r u (inr (deadline, now, w, q, z, ground arith)))
          | inr late ↦
              let s = same_id in
              subst (Ends unmarshal with_stop env id db) (ground arith)
                (times_out f deadline now r u w q z (ground arith))
        ]
      ]

      not_ready-Ends :
          IsOpen unmarshal with_stop env id f
          → (c : Bool) → with_stop ≡ c
          → Ends unmarshal with_stop env id db (not_ready_yet c env f db)
      unfolding not_ready_yet
      not_ready-Ends u false w = unready f r u (inl w)
      not_ready-Ends u true w = elim (Option-cases f.deadline_at) [
        | inl p ↦
            subst (Ends unmarshal with_stop env id db) (ground arith)
              (failed invalid_facts (no_deadline f r u w (inl p)))
        | inr (deadline, p) ↦ elim (Bool-cases (is_zero deadline)) [
          | inl z ↦
              subst (Ends unmarshal with_stop env id db) (ground arith)
                (failed invalid_facts (no_deadline f r u w (inr (ground arith))))
          | inr z ↦ elim (Bool-cases env.ended_late) [
            | inl e ↦
                subst (Ends unmarshal with_stop env id db) (ground arith)
                  (failed (driver expired) (late_context f r u w e))
            | inr e ↦
                let k : IsTimed unmarshal with_stop env id f deadline = record {
                  stops = w;
                  deadline_set = p;
                  positive_deadline = z;
                  goes_on = e;
                } in
                elim (Result-cases env.clock) [
                  | inr (x, q) ↦
                      subst (Ends unmarshal with_stop env id db) (ground arith)
                        (failed x (no_clock f deadline x r u k q))
                  | inl (now, q) ↦
                      subst (Ends unmarshal with_stop env id db) (ground arith)
                        (late-Ends deadline u k now q)
                ]
          ]
        ]
      ]

      task-Ends :
          (s : TaskStatus)
          → HasTask unmarshal with_stop env id f s
          → Ends unmarshal with_stop env id db (check_task with_stop env f s db)
      unfolding check_task completed_with
      task-Ends TaskStatus.waiting h =
          not_ready-Ends (inr (TaskStatus.waiting, h, refl)) with_stop refl
      task-Ends TaskStatus.running h =
          not_ready-Ends (inr (TaskStatus.running, h, refl)) with_stop refl
      task-Ends TaskStatus.retry_waiting h =
          not_ready-Ends (inr (TaskStatus.retry_waiting, h, refl)) with_stop refl
      task-Ends TaskStatus.canceled h =
          not_ready-Ends (inr (TaskStatus.canceled, h, refl)) with_stop refl
      task-Ends TaskStatus.succeeded h =
          let s = same_id in
          subst (Ends unmarshal with_stop env id db) (ground arith) (succeeds f r h)
      task-Ends TaskStatus.failed h =
          let s = same_id in subst (Ends unmarshal with_stop env id db) (ground arith) (fails f r h)
      task-Ends (TaskStatus.unknown n) h =
          let a = h.is_task in
          let b = h.status in failed invalid_facts (odd_task f h.task r a (inr (inr (n, b))))

      ordinary-Ends : Ends unmarshal with_stop env id db (check_ordinary with_stop env f db)
      unfolding check_ordinary
      ordinary-Ends = elim (Option-cases f.task_id) [
        | inl n ↦
            subst (Ends unmarshal with_stop env id db) (ground arith)
              (not_ready-Ends (inl n) with_stop refl)
        | inr (task, t) ↦ elim (Option-cases f.task_status) [
          | inl n ↦
              subst (Ends unmarshal with_stop env id db) (ground arith)
                (failed invalid_facts (odd_task f task r t (inl n)))
          | inr (s, p) ↦ elim (Bool-cases (task == 0)) [
            | inl z ↦
                subst (Ends unmarshal with_stop env id db) (ground arith)
                  (failed invalid_facts (odd_task f task r t (inr (inl z))))
            | inr z ↦
                let h : HasTask unmarshal with_stop env id f s = record {
                  task = task;
                  is_task = t;
                  positive = z;
                  status = p;
                } in
                subst (Ends unmarshal with_stop env id db) (ground arith) (task-Ends s h)
          ]
        ]
      ]

    decoded-Ends :
        (x : Result Bool)
        → IsFound unmarshal with_stop env id f
        → Instance.is_running f.status ≡ true
        → ConfigOf (unmarshal f.execution_config) x
        → Ends unmarshal with_stop env id db (check_decoded unmarshal with_stop env f db x)
    decoded-Ends _ g run (unusable s o) = failed invalid_config (odd_config f g run s o)
    decoded-Ends _ g run (sharded_round s) = sharded f g run s
    decoded-Ends _ g run (ordinary_round o) =
        ordinary-Ends (record { found = g; running = run; ordinary = o })

    parent-Ends :
        IsFound unmarshal with_stop env id f
        → (s : InstanceStatus) → f.status ≡ s
        → Ends unmarshal with_stop env id db (check_parent unmarshal with_stop env f s db)
    unfolding check_parent
    parent-Ends g InstanceStatus.succeeded p = ended f g (ground arith)
    parent-Ends g InstanceStatus.failed p = ended f g (ground arith)
    parent-Ends g InstanceStatus.canceled p = ended f g (ground arith)
    parent-Ends g InstanceStatus.waiting p = not_started f g p
    parent-Ends g InstanceStatus.stopping p =
        let k = g.same in
        let same : id ≡ f.id = ground arith in
        subst (λ j. Ends unmarshal with_stop env id db (db, ok stopping, resume_events with_stop j))
          same (resumes f g (ground arith))
    parent-Ends g InstanceStatus.running p =
        decoded-Ends (check_config (unmarshal f.execution_config)) g (ground arith)
          (check_config-ConfigOf (unmarshal f.execution_config))
    parent-Ends g (InstanceStatus.unknown n) p = failed invalid_facts (odd_status f n g p)

  -- A check, whatever the environment answers, ends in one of these ways. It fails without a write,
  -- for one of the named causes. It skips: no such Instance, one that waits, or a running sharded one.
  -- It observes the end of the Instance, or resumes a stop, with its callback only when stops are
  -- enabled. A running ordinary round (version 1, normal mode, no post-processing) of the Instance
  -- asked for that has no Task or one that is not final is not ready, unless stops are enabled and the
  -- clock has reached the deadline, when its timeout is requested. Such a round whose Task succeeded
  -- or failed is completed with that status, and the answer is the one that this write gives.
  pub check-Ends :
      (db : Db) → Ends unmarshal with_stop env id db (check unmarshal with_stop env id db)
  unfolding check
  check-Ends db = elim (Bool-cases (id == 0)) [
    | inl z ↦
        subst (Ends unmarshal with_stop env id db) (ground arith)
          (failed invalid_argument (no_id z))
    | inr z ↦ elim (Bool-cases env.ended) [
      | inl e ↦
          subst (Ends unmarshal with_stop env id db) (ground arith)
            (failed (driver expired) (context_ended z e))
      | inr e ↦ elim (Result-cases env.facts) [
        | inr (x, r) ↦
            subst (Ends unmarshal with_stop env id db) (ground arith) (failed x (unread x (z, e) r))
        | inl (o, r) ↦ elim (Option-cases o) [
          | inl n ↦
              subst (Ends unmarshal with_stop env id db) (ground arith)
                (missing (z, e) (ground arith))
          | inr (f, p) ↦ elim (Bool-cases (f.id == id)) [
            | inr bad ↦
                subst (Ends unmarshal with_stop env id db) (ground arith)
                  (failed invalid_facts (other_row f (z, e) (ground arith) bad))
            | inl good ↦
                let g : IsFound unmarshal with_stop env id f = record {
                  named = z;
                  in_time = e;
                  facts = ground arith;
                  same = good;
                } in
                subst (Ends unmarshal with_stop env id db) (ground arith)
                  (parent-Ends db f g f.status refl)
          ]
        ]
      ]
    ]
  ]
