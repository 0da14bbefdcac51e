-- ===== src/Creator/Advances/Due.antt =====
-- trigger/creator.go: one call of TriggerAutomatic, and the call that follows it.
use dogx.Common.{
  ℕ, ◌==◌, ltb, if◌then◌else◌, ◌≡◌, refl, sym, subst, true, false, Option, none, some, List, [],
  ◌∷◌, inl, inr, arith, Bool-cases, Option-cases,
}
use dogx.Model.{Time, Snapshot}
use dogx.Schedule.{Grammar, next}
use dogx.Model.Job.{JobDefinition}
use dogx.Database.{Fault, driver, update, Reply, done, aborted, unconfirmed}
use dogx.Creator.{
  Tables, Answer, value, failed, repository, TriggerError, invalid_input, Statement, TriggerEnv,
  ExecutionSnapshot, lock, accepts_advance, advanced, commit,
}
use dogx.Creator.Answers.{lock-id}
use dogx.Creator.Automatic.{
  AutomaticResult, skipped, not_due, automatic_answer, automatic_locked, automatic_body,
  trigger_automatic,
}
use dogx.Creator.Advances.{Verdict, idle, moved, is_idle, IsAdvance, automatic_body-Verdict}

module _ (encode : ExecutionSnapshot → Snapshot) (grammar : Grammar) where
  abbrev pub hint_of : AutomaticResult → Option ℕ
  hint_of r = if r.created then some r.instance_id else none

  -- How a call ends: with a decision that was committed and the hint of its round; refused, with no
  -- change; or with a decision whose commit was not confirmed.
  pub data Call (env : TriggerEnv) (id : ℕ) (t : Tables)
      : Tables × Answer AutomaticResult × Option ℕ → Type 0 where
    decided :
        (r : AutomaticResult) (t' : Tables)
        → env.commit ≡ done
        → Verdict encode grammar env id t r t'
        → Call env id t (t', value r, hint_of r)
    refused : (e : TriggerError) → Call env id t (t, failed e, none)
    uncertain :
        (f : Fault) (r : AutomaticResult) (t' : Tables)
        → env.commit ≡ unconfirmed f
        → Verdict encode grammar env id t r t'
        → Call env id t (t', failed (repository (driver f)), none)

  answer-Call :
      (env : TriggerEnv) (id : ℕ) (t : Tables) (reply : Reply)
      (a : Answer (AutomaticResult × Tables))
      → env.commit ≡ reply
      → ((d : AutomaticResult × Tables) → a ≡ value d → Verdict encode grammar env id t d.0 d.1)
      → Call env id t (automatic_answer encode grammar (commit reply t a))
  unfolding commit
  answer-Call env id t reply (failed e) c f = refused e
  answer-Call env id t done (value (r, t')) c f = decided r t' c (f (r, t') refl)
  answer-Call env id t (aborted g) (value (r, t')) c f = refused (repository (driver g))
  answer-Call env id t (unconfirmed g) (value (r, t')) c f = uncertain g r t' c (f (r, t') refl)

  -- Every call of TriggerAutomatic ends in one of three ways. It answers with a decision, after a
  -- confirmed commit, and hints the round exactly when it made one; it is refused, the tables stay and
  -- nothing is hinted; or the commit of a decision was not confirmed, and nothing is hinted. A decision
  -- finds nothing to do and changes nothing; or the Job is enabled and due, its next time and nothing
  -- else of it is set to the occurrence after the clock's time, and the rows either stay, for a misfire
  -- that the policy ignores, a blocked round or an identity that exists, or gain one row for the due
  -- time, where none had its identity.
  pub trigger_automatic-Call :
      (env : TriggerEnv) (id : ℕ) (t : Tables)
      → Call env id t (trigger_automatic encode grammar env id t)
  unfolding trigger_automatic
  trigger_automatic-Call env id t = elim (Bool-cases (id == 0)) [
    | inl z ↦ subst (Call env id t) (ground arith) (refused invalid_input)
    | inr z ↦ elim (Option-cases env.slot) [
      | inr (e, s) ↦ subst (Call env id t) (ground arith) (refused e)
      | inl s ↦
          let body = automatic_body encode grammar env id t in
          let c =
            answer-Call env id t env.commit body refl
              (λ d h. automatic_body-Verdict encode grammar env id t d h) in
          subst (Call env id t) (ground arith) c
    ]
  ]

  lock-advanced :
      (id : ℕ) (at : Time) (jobs : List JobDefinition) (j : JobDefinition)
      → lock none id jobs ≡ value j
      → j.is_enabled ≡ true
      → lock none id (update (accepts_advance id) (advanced at) jobs) ≡ value (advanced at j)
  unfolding lock
  lock-advanced id at [] j h on = absurd (ground arith)
  lock-advanced id at (i ∷ jobs) j h on = elim (Bool-cases (i.id == id)) [
    | inl e ↦ elim (Bool-cases i.is_deleted) [
      | inl x ↦ absurd (ground arith)
      | inr x ↦
          let same : i ≡ j = ground arith in
          let on_i : i.is_enabled ≡ true = ground arith in
          let head : accepts_advance id i ≡ true = ground arith in ground arith
    ]
    | inr e ↦ let rest = lock-advanced id at jobs j (ground arith) on in ground arith
  ]

  call-Verdict :
      (env : TriggerEnv) (id : ℕ) (t t' : Tables) (r : AutomaticResult) (hint : Option ℕ)
      (p : Tables × Answer AutomaticResult × Option ℕ)
      → Call env id t p
      → p ≡ (t', value r, hint)
      → Verdict encode grammar env id t r t'
  call-Verdict env id t t' r hint _ (decided r0 t0 c d) e =
      let r_eq : r0 ≡ r = ground arith in
      let t_eq : t0 ≡ t' = ground arith in
      subst (λ u. Verdict encode grammar env id t u t') r_eq
        (subst (λ u. Verdict encode grammar env id t r0 u) t_eq d)
  call-Verdict env id t t' r hint _ (refused f) e = absurd (ground arith)
  call-Verdict env id t t' r hint _ (uncertain f r0 t0 c d) e = absurd (ground arith)

  decision-IsAdvance :
      (env : TriggerEnv) (id : ℕ) (t t' : Tables) (r : AutomaticResult)
      → Verdict encode grammar env id t r t'
      → is_idle encode grammar r.reason ≡ false
      → IsAdvance encode grammar env id t r t'
  decision-IsAdvance env id t t' r (idle reason i) n = absurd (ground arith)
  decision-IsAdvance env id t t' r (moved _ _ m) n = m

  automatic_body-not_due :
      (env : TriggerEnv) (id : ℕ) (t : Tables) (j : JobDefinition) (at : Time)
      → lock none id t.jobs ≡ value j
      → j.is_enabled ≡ true
      → j.next_trigger_at ≡ some at
      → ltb env.now at ≡ true
      → env.fault Statement.lock_job ≡ none
      → automatic_body encode grammar env id t ≡ value (skipped not_due, t)
  unfolding automatic_body automatic_locked
  automatic_body-not_due env id t j at l on due early f =
      let k : lock (env.fault Statement.lock_job) id t.jobs ≡ value j =
        subst (λ x. lock x id t.jobs ≡ value j) (sym f) l in
      ground arith

  -- After a call that acted on a due time, whether it made the round or skipped it, the Job is not due
  -- again before the occurrence that follows the clock's time: until then a call on the tables that
  -- were left, if it gets a permit, reads the Job and has its commit confirmed, answers so, changes
  -- nothing and hints nothing.
  pub trigger_automatic_again :
      (env env' : TriggerEnv) (id : ℕ) (t t' : Tables) (r : AutomaticResult) (hint : Option ℕ)
      (j : JobDefinition) (at : Time)
      → trigger_automatic encode grammar env id t ≡ (t', value r, hint)
      → is_idle encode grammar r.reason ≡ false
      → lock none id t.jobs ≡ value j
      → next grammar j.cron_expr env.now ≡ some at
      → (id == 0) ≡ false
      → env'.slot ≡ none
      → env'.fault Statement.lock_job ≡ none
      → env'.commit ≡ done
      → ltb env'.now at ≡ true
      → trigger_automatic encode grammar env' id t' ≡ (t', value (skipped not_due), none)
  unfolding trigger_automatic commit
  trigger_automatic_again env env' id t t' r hint j at h n l f z s k c b =
      let d = call-Verdict env id t t' r hint _ (trigger_automatic-Call env id t) h in
      let m = decision-IsAdvance env id t t' r d n in
      let ml = m.locked in
      let mf = m.follows in
      let mj = m.jobs in
      let mo = m.is_on in
      let same : m.job ≡ j = ground arith in
      let at_eq : m.at ≡ at = ground arith in
      let key : m.job.id ≡ id = let q = (lock-id none id t.jobs m.job ml).1 in ground arith in
      let a = lock-advanced id m.at t.jobs m.job ml mo in
      let jobs : t'.jobs ≡ update (accepts_advance id) (advanced m.at) t.jobs =
        subst (λ x. t'.jobs ≡ update (accepts_advance x) (advanced m.at) t.jobs) key mj in
      let locked : lock none id t'.jobs ≡ value (advanced m.at m.job) =
        subst (λ x. lock none id x ≡ value (advanced m.at m.job)) (sym jobs) a in
      let body =
        automatic_body-not_due env' id t' (advanced m.at m.job) m.at locked mo refl (ground arith)
          k in
      ground arith
