-- ===== src/Creator/Advances.antt =====
-- trigger/creator.go: what TriggerAutomatic decides for one Job.
pub mod Due
pub mod Succeeds
use Prim.Native.String.{String}
use dogx.Common.{
  ℕ, ◌==◌, ltb, ◌≡◌, refl, sym, subst, ◌&&◌, not, Bool, true, false, Option, none, some, List, [],
  ◌∷◌, inl, inr, arith, Bool-cases, Option-cases, if◌then◌else◌,
}
use dogx.Model.{Time, Snapshot}
use dogx.Schedule.{Grammar, next}
use dogx.Model.Job.{JobDefinition}
use dogx.Model.Instance.{JobInstance}
use dogx.Database.{Fault, Result, ok, err, update, affected, job_not_found}
use dogx.InstanceStore.Writes.{insert, snapshot_row, valid_identity, conflicts}
use dogx.Creator.{
  Tables, Answer, value, failed, repository, TriggerError, Statement, TriggerEnv, ExecutionSnapshot,
  lock, accepts_advance, advanced, advance, active,
}
use dogx.Creator.Answers.{
  lock-id, Answer-cases, >>=_elim, if_elim, Option_elim, value-injective, from_result-value,
}
use dogx.Creator.Automatic.{
  Reason, not_found, disabled, not_due, misfire_ignored, blocked_discarded, created, duplicate,
  AutomaticResult, skipped, is_misfire, is_ignoring, is_not_found, inserted_result,
  automatic_instance, decide_round, automatic_due, automatic_locked, automatic_body,
}

module _ (encode : ExecutionSnapshot → Snapshot) (grammar : Grammar) where
  -- The row that a Job's due time asks for.
  abbrev pub due_instance : TriggerEnv → JobDefinition → Time → JobInstance
  due_instance env j scheduled =
      automatic_instance encode grammar j scheduled (is_misfire env.now scheduled)

  -- Why no round was made for a due time, or the round that was, with the rows after it.
  pub data Round (env : TriggerEnv) (rows : List JobInstance) (j : JobDefinition) (scheduled : Time)
      : AutomaticResult → List JobInstance → Type 0 where
    ignored :
        (is_misfire env.now scheduled && is_ignoring j.misfire_policy) ≡ true
        → Round env rows j scheduled (skipped misfire_ignored) rows
    blocked :
        active env j rows ≡ value true → Round env rows j scheduled (skipped blocked_discarded) rows
    repeated :
        conflicts (due_instance env j scheduled) rows ≡ true
        → Round env rows j scheduled (inserted_result (0, false)) rows
    made :
        (is_misfire env.now scheduled && is_ignoring j.misfire_policy) ≡ false
        → active env j rows ≡ value false
        → conflicts (due_instance env j scheduled) rows ≡ false
        → Round env rows j scheduled
            (inserted_result (env.next_id, true))
            (snapshot_row env.next_id env.database_now (due_instance env j scheduled) ∷ rows)

  inserted-Round :
      (env : TriggerEnv) (rows : List JobInstance) (j : JobDefinition) (scheduled : Time)
      → (is_misfire env.now scheduled && is_ignoring j.misfire_policy) ≡ false
      → active env j rows ≡ value false
      → (fault : Option Fault) (r : (ℕ × Bool) × List JobInstance)
      → insert fault env.next_id env.database_now (due_instance env j scheduled) rows ≡ ok r
      → Round env rows j scheduled (inserted_result r.0) r.1
  unfolding insert
  inserted-Round env rows j scheduled m a (some f) r h = absurd (ground arith)
  inserted-Round env rows j scheduled m a none r h =
      let i = due_instance env j scheduled in
      elim (Bool-cases (valid_identity i)) [
        | inr v ↦ absurd (ground arith)
        | inl v ↦ elim (Bool-cases (conflicts i rows)) [
          | inl c ↦
              let e : ((0, false), rows) ≡ r = ground arith in
              subst (λ q. Round env rows j scheduled (inserted_result q.0) q.1) e (repeated c)
          | inr c ↦
              let e : ((env.next_id, true), snapshot_row env.next_id env.database_now i ∷ rows)
                  ≡ r =
                ground arith in
              subst (λ q. Round env rows j scheduled (inserted_result q.0) q.1) e (made m a c)
        ]
      ]

  pub decide_round-Round :
      (env : TriggerEnv) (t : Tables) (j : JobDefinition) (scheduled : Time)
      (d : AutomaticResult × List JobInstance)
      → decide_round encode grammar env t j scheduled ≡ value d
      → Round env t.instances j scheduled d.0 d.1
  unfolding decide_round
  decide_round-Round env t j scheduled d h =
      let R : AutomaticResult × List JobInstance → Type 0 =
        λ q. Round env t.instances j scheduled q.0 q.1 in
      let A : Bool → Type 0 = λ c. active env j t.instances ≡ value c in
      if_elim (is_misfire env.now scheduled && is_ignoring j.misfire_policy) h
        (λ m h1. subst R (value-injective h1) (ignored m))
        (λ m h1. >>=_elim (active env j t.instances) h1 (λ busy a h2.
          if_elim busy h2 (λ b h3. subst R (value-injective h3) (blocked (subst A b a)))
            (λ b h3. >>=_elim _ h3 (λ r e h4. subst R (value-injective h4) (
              inserted-Round env t.instances j scheduled m (subst A b a)
                (env.fault Statement.insert_row) r (from_result-value _ r e))))))

  -- The lock's Job is due, the write has moved its next time, and the rows are those of a Round.
  pub record IsAdvance (env : TriggerEnv) (id : ℕ) (t : Tables) (r : AutomaticResult) (t' : Tables)
      : Type 0 where
    pub job : JobDefinition
    pub locked : lock none id t.jobs ≡ value job
    pub is_on : job.is_enabled ≡ true
    pub scheduled : Time
    pub due : job.next_trigger_at ≡ some scheduled
    pub passed : ltb env.now scheduled ≡ false
    pub at : Time
    pub follows : next grammar job.cron_expr env.now ≡ some at
    pub one : affected (accepts_advance job.id) t.jobs ≡ 1
    pub jobs : t'.jobs ≡ update (accepts_advance job.id) (advanced at) t.jobs
    pub round : Round env t.instances job scheduled r t'.instances

  abbrev pub is_idle : Reason → Bool
  is_idle not_found = true
  is_idle disabled = true
  is_idle not_due = true
  is_idle _ = false

  -- A decision: nothing to do, on the same tables, or an advance.
  pub data Verdict (env : TriggerEnv) (id : ℕ) (t : Tables)
      : AutomaticResult → Tables → Type 0 where
    idle : (reason : Reason) → is_idle reason ≡ true → Verdict env id t (skipped reason) t
    moved : (r : AutomaticResult) (t' : Tables) → IsAdvance env id t r t' → Verdict env id t r t'

  advance-one :
      (fault check : Option Fault) (id : ℕ) (at : Time) (jobs jobs' : List JobDefinition)
      → advance fault check id at jobs ≡ value jobs'
      → (affected (accepts_advance id) jobs ≡ 1)
        × (update (accepts_advance id) (advanced at) jobs ≡ jobs')
  unfolding advance
  advance-one (some f) check id at jobs jobs' h = absurd (ground arith)
  advance-one none check id at jobs jobs' h =
      if_elim (affected (accepts_advance id) jobs == 1) h (λ o v. (ground arith, value-injective v))
        (λ o v.
          if_elim (affected (accepts_advance id) jobs == 0) v (λ z w. absurd (ground arith))
            (λ z w. absurd (ground arith)))

  automatic_due-Verdict :
      (env : TriggerEnv) (id : ℕ) (t : Tables) (j : JobDefinition) (scheduled : Time)
      (d : AutomaticResult × Tables)
      → lock none id t.jobs ≡ value j
      → j.is_enabled ≡ true
      → j.next_trigger_at ≡ some scheduled
      → ltb env.now scheduled ≡ false
      → automatic_due encode grammar env t j scheduled ≡ value d
      → Verdict env id t d.0 d.1
  unfolding automatic_due
  automatic_due-Verdict env id t j scheduled d l on due passed h =
      Option_elim (next grammar j.cron_expr env.now) _ h (λ n h0. absurd (ground arith))
        (λ at n h0. >>=_elim (decide_round encode grammar env t j scheduled) h0 (λ c e h1.
          >>=_elim
            (advance (env.fault Statement.advance_job) (env.fault Statement.check_job) j.id at
              t.jobs)
            h1
            (λ jobs a h2.
              let o = advance-one _ _ j.id at t.jobs jobs a in
              let q : Tables = record t { jobs = jobs; instances = c.1 } in
              let m : IsAdvance env id t c.0 q = record {
                job = j;
                locked = l;
                is_on = on;
                scheduled = scheduled;
                due = due;
                passed = passed;
                at = at;
                follows = n;
                one = o.0;
                jobs = sym o.1;
                round = decide_round-Round env t j scheduled c e;
              } in
              subst (λ u. Verdict env id t u.0 u.1) (value-injective h2) (moved c.0 q m))))

  automatic_locked-Verdict :
      (env : TriggerEnv) (id : ℕ) (t : Tables) (j : JobDefinition) (d : AutomaticResult × Tables)
      → lock none id t.jobs ≡ value j
      → automatic_locked encode grammar env t j ≡ value d
      → Verdict env id t d.0 d.1
  unfolding automatic_locked
  automatic_locked-Verdict env id t j d l h =
      let D : AutomaticResult × Tables → Type 0 = λ u. Verdict env id t u.0 u.1 in
      if_elim (not j.is_enabled) h (λ o h1. subst D (value-injective h1) (idle disabled refl))
        (λ o h1.
          Option_elim j.next_trigger_at _ h1
            (λ n h2. subst D (value-injective h2) (idle not_due refl))
            (λ s n h2.
              if_elim (ltb env.now s) h2 (λ p h3. subst D (value-injective h3) (idle not_due refl))
                (λ p h3. automatic_due-Verdict env id t j s d l (ground arith) n p h3)))

  pub automatic_body-Verdict :
      (env : TriggerEnv) (id : ℕ) (t : Tables) (d : AutomaticResult × Tables)
      → automatic_body encode grammar env id t ≡ value d
      → Verdict env id t d.0 d.1
  unfolding automatic_body
  automatic_body-Verdict env id t d h =
      let D : AutomaticResult × Tables → Type 0 = λ u. Verdict env id t u.0 u.1 in
      elim (Answer-cases (lock (env.fault Statement.lock_job) id t.jobs)) [
        | inl (e, l) ↦
            let h0 : (if is_not_found e then value (skipped not_found, t) else failed e) ≡ value d =
              ground arith in
            if_elim (is_not_found e) h0 (λ n h1. subst D (value-injective h1) (idle not_found refl))
              (λ n h1. absurd (ground arith))
        | inr (j, l) ↦
            automatic_locked-Verdict env id t j d (lock-id _ id t.jobs j l).0 (ground arith)
      ]
