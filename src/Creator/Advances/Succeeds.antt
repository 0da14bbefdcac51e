-- ===== src/Creator/Advances/Succeeds.antt =====
-- trigger/creator.go: TriggerAutomatic for a due Job, over a database that answers.
use dogx.Common.{
  ℕ, ◌==◌, ltb, ◌&&◌, ◌≡◌, refl, sym, ◌∙◌, subst, Bool, true, false, none, some, List, inl, inr,
  arith, Bool-cases,
}
use dogx.Model.{Time, Snapshot}
use dogx.Schedule.{Grammar, next}
use dogx.Model.Job.{JobDefinition}
use dogx.Model.Instance.{JobInstance}
use dogx.Database.{update, affected, done}
use dogx.InstanceStore.Listings.{has_active}
use dogx.InstanceStore.Writes.{insert, valid_identity, conflicts}
use dogx.Creator.{
  Tables, Answer, value, failed, from_result, Statement, TriggerEnv, ExecutionSnapshot, lock,
  accepts_advance, advanced, advance, is_discarding, active, commit,
}
use dogx.Creator.Automatic.{
  AutomaticResult, is_misfire, is_ignoring, decide_round, automatic_due, automatic_locked,
  automatic_body, trigger_automatic,
}
use dogx.Creator.Advances.{due_instance, IsAdvance, decide_round-Round}
use dogx.Creator.Advances.Due.{hint_of}

abbrev is_value : {A : Type 0} → Answer A → Bool
is_value (failed e) = false
is_value (value x) = true

answered : {A : Type 0} (a : Answer A) → is_value a ≡ true → (x : A) × (a ≡ value x)
answered (failed e) h = absurd (ground arith)
answered (value x) h = (x, refl)

active-is_value :
    (env : TriggerEnv) (j : JobDefinition) (rows : List JobInstance)
    → env.fault Statement.check_active ≡ none
    → is_value (active env j rows) ≡ true
unfolding active has_active
active-is_value env j rows f = elim (Bool-cases (is_discarding j.block_policy)) [
  | inl d ↦ rw (d, f) refl
  | inr d ↦ rw d refl
]

module _ (encode : ExecutionSnapshot → Snapshot) (grammar : Grammar) where
  due_instance-valid_identity :
      (env : TriggerEnv) (j : JobDefinition) (scheduled : Time)
      → valid_identity (due_instance encode grammar env j scheduled) ≡ true
  unfolding valid_identity
  due_instance-valid_identity env j scheduled = elim (Bool-cases (is_misfire env.now scheduled)) [
    | inl m ↦ rw m refl
    | inr m ↦ rw m refl
  ]

  insert-is_value :
      (env : TriggerEnv) (j : JobDefinition) (scheduled : Time) (rows : List JobInstance)
      → is_value (
          from_result (
            insert none env.next_id env.database_now
              (due_instance encode grammar env j scheduled)
              rows))
        ≡ true
  unfolding insert
  insert-is_value env j scheduled rows =
      let v = due_instance-valid_identity env j scheduled in
      elim (Bool-cases (conflicts (due_instance encode grammar env j scheduled) rows)) [
        | inl c ↦ rw (v, c) refl
        | inr c ↦ rw (v, c) refl
      ]

  decide_round-is_value :
      (env : TriggerEnv) (t : Tables) (j : JobDefinition) (scheduled : Time)
      → ((s : Statement) → env.fault s ≡ none)
      → is_value (decide_round encode grammar env t j scheduled) ≡ true
  unfolding decide_round
  decide_round-is_value env t j scheduled f =
      let (b, a) = answered _ (active-is_value env j t.instances (f Statement.check_active)) in
      let (r, e) = answered _ (insert-is_value env j scheduled t.instances) in
      let g = f Statement.insert_row in
      elim (Bool-cases (is_misfire env.now scheduled && is_ignoring j.misfire_policy)) [
        | inl m ↦ rw m refl
        | inr m ↦ elim (Bool-cases b) [
          | inl k ↦ rw (m, a, k) refl
          | inr k ↦ rw (m, a, k, g, e) refl
        ]
      ]

  automatic_due-value :
      (env : TriggerEnv) (t : Tables) (j : JobDefinition) (scheduled at : Time)
      (d : AutomaticResult × List JobInstance)
      → env.fault Statement.advance_job ≡ none
      → next grammar j.cron_expr env.now ≡ some at
      → affected (accepts_advance j.id) t.jobs ≡ 1
      → decide_round encode grammar env t j scheduled ≡ value d
      → automatic_due encode grammar env t j scheduled
        ≡ value (
          d.0,
          record t { jobs = update (accepts_advance j.id) (advanced at) t.jobs; instances = d.1 },
        )
  unfolding automatic_due advance
  automatic_due-value env t j scheduled at d f n one e =
      let a : advance (env.fault Statement.advance_job) (env.fault Statement.check_job) j.id at
            t.jobs
          ≡ value (update (accepts_advance j.id) (advanced at) t.jobs) =
        rw (f, one) refl in
      ground arith

  automatic_body-due :
      (env : TriggerEnv) (id : ℕ) (t : Tables) (j : JobDefinition) (scheduled : Time)
      → env.fault Statement.lock_job ≡ none
      → lock none id t.jobs ≡ value j
      → j.is_enabled ≡ true
      → j.next_trigger_at ≡ some scheduled
      → ltb env.now scheduled ≡ false
      → automatic_body encode grammar env id t ≡ automatic_due encode grammar env t j scheduled
  unfolding automatic_body automatic_locked
  automatic_body-due env id t j scheduled f l on due passed =
      let k : lock (env.fault Statement.lock_job) id t.jobs ≡ value j =
        subst (λ x. lock x id t.jobs ≡ value j) (sym f) l in
      ground arith

  call-value :
      (env : TriggerEnv) (id : ℕ) (t : Tables) (r : AutomaticResult) (t' : Tables)
      → (id == 0) ≡ false
      → env.slot ≡ none
      → env.commit ≡ done
      → automatic_body encode grammar env id t ≡ value (r, t')
      → trigger_automatic encode grammar env id t ≡ (t', value r, hint_of encode grammar r)
  unfolding trigger_automatic commit
  call-value env id t r t' z s c b = rw (z, s, b, c) refl

  -- A call for an enabled Job that is due, with a free permit, over a database that answers and commits,
  -- where the Job's ID is its row's alone and its expression has a next occurrence, succeeds: it moves the
  -- Job's next time there and makes the round of the due time, unless the policies or the round's
  -- identity skip it.
  pub trigger_automatic-IsAdvance :
      (env : TriggerEnv) (id : ℕ) (t : Tables) (j : JobDefinition) (scheduled at : Time)
      → (id == 0) ≡ false
      → env.slot ≡ none
      → ((s : Statement) → env.fault s ≡ none)
      → env.commit ≡ done
      → lock none id t.jobs ≡ value j
      → j.is_enabled ≡ true
      → j.next_trigger_at ≡ some scheduled
      → ltb env.now scheduled ≡ false
      → next grammar j.cron_expr env.now ≡ some at
      → affected (accepts_advance j.id) t.jobs ≡ 1
      → (r : AutomaticResult) × (t' : Tables) × (trigger_automatic encode grammar env id t
          ≡ (t', value r, hint_of encode grammar r))
        × IsAdvance encode grammar env id t r t'
  trigger_automatic-IsAdvance env id t j scheduled at z s f c l on due passed n one =
      let ((r, rows), d) = answered _ (decide_round-is_value env t j scheduled f) in
      let jobs = update (accepts_advance j.id) (advanced at) t.jobs in
      let t' : Tables = record t { jobs = jobs; instances = rows } in
      let body =
        automatic_body-due env id t j scheduled (f Statement.lock_job) l on due passed
        ∙ automatic_due-value env t j scheduled at (r, rows) (f Statement.advance_job) n one d in
      let moved : IsAdvance encode grammar env id t r t' = record {
        job = j;
        locked = l;
        is_on = on;
        scheduled = scheduled;
        due = due;
        passed = passed;
        at = at;
        follows = n;
        one = one;
        jobs = refl;
        round = decide_round-Round encode grammar env t j scheduled (r, rows) d;
      } in
      (r, t', call-value env id t r t' z s c body, moved)
