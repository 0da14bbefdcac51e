-- ===== src/Creator/Automatic.antt =====
-- trigger/creator.go: TriggerAutomatic.
use dogx.Common.{
  ℕ, ◌-◌, ◌*◌, ◌==◌, ltb, if◌then◌else◌, ◌&&◌, not, Bool, true, false, Option, none, some, List,
}
use dogx.Model.{Time, second, Snapshot}
use dogx.Schedule.{Grammar, next}
use dogx.Model.Job.{JobDefinition}
use dogx.Model.Instance.{JobInstance, TriggerType, MisfirePolicy}
use dogx.Database.{job_not_found}
use dogx.InstanceStore.Writes.{insert}
use dogx.Creator.{
  Tables, TriggerError, invalid_input, no_next_occurrence, repository, Answer, value, failed, ◌>>=◌,
  from_result, Statement, TriggerEnv, ExecutionSnapshot, snapshot_of, snapshot, lock, advance,
  active, commit,
}

abbrev pub misfire_tolerance : Time
misfire_tolerance = 5 * second

pub data Reason : Type 0 where
  not_found disabled not_due misfire_ignored blocked_discarded created duplicate : Reason

pub record AutomaticResult : Type 0 where
  pub instance_id : ℕ
  pub created : Bool
  pub reason : Reason

abbrev pub skipped : Reason → AutomaticResult
skipped reason = record { instance_id = 0; created = false; reason = reason }

abbrev pub is_not_found : TriggerError → Bool
is_not_found (repository job_not_found) = true
is_not_found _ = false

abbrev pub is_ignoring : MisfirePolicy → Bool
is_ignoring MisfirePolicy.ignore = true
is_ignoring MisfirePolicy.once = false

-- The delay beyond the tolerance.
unfoldable pub is_misfire : Time → Time → Bool
is_misfire now scheduled = ltb misfire_tolerance (now - scheduled)

abbrev pub inserted_result : ℕ × Bool → AutomaticResult
inserted_result (id, true) = record { instance_id = id; created = true; reason = created }
inserted_result (id, false) = record { instance_id = id; created = false; reason = duplicate }

module _ (encode : ExecutionSnapshot → Snapshot) (grammar : Grammar) where
  abbrev pub automatic_instance : JobDefinition → Time → Bool → JobInstance
  automatic_instance j scheduled misfire =
      record (snapshot encode j (if misfire then TriggerType.misfire else TriggerType.scheduled)
        (snapshot_of j)) { scheduled_at = some scheduled }

  -- The round, unless the policies skip it.
  unfoldable pub decide_round :
      TriggerEnv → Tables → JobDefinition → Time → Answer (AutomaticResult × List JobInstance)
  unfolding active is_misfire
  decide_round env t j scheduled =
      if is_misfire env.now scheduled && is_ignoring j.misfire_policy
      then value (skipped misfire_ignored, t.instances)
      else do
        busy ← active env j t.instances
        if busy then value (skipped blocked_discarded, t.instances) else do
          r ← from_result (
              insert (env.fault Statement.insert_row) env.next_id env.database_now
                (automatic_instance j scheduled (is_misfire env.now scheduled)) t.instances)
          value (inserted_result r.0, r.1)

  unfoldable pub automatic_due :
      TriggerEnv → Tables → JobDefinition → Time → Answer (AutomaticResult × Tables)
  unfolding decide_round advance
  automatic_due env t j scheduled = elim (next grammar j.cron_expr env.now) [
    | none ↦ failed no_next_occurrence
    | some at ↦ do
      d ← decide_round env t j scheduled
      jobs ←
          advance (env.fault Statement.advance_job) (env.fault Statement.check_job) j.id at t.jobs
      value (d.0, record t { jobs = jobs; instances = d.1 })
  ]

  unfoldable pub automatic_locked :
      TriggerEnv → Tables → JobDefinition → Answer (AutomaticResult × Tables)
  unfolding automatic_due
  automatic_locked env t j =
      if not j.is_enabled then value (skipped disabled, t) else elim j.next_trigger_at [
        | none ↦ value (skipped not_due, t)
        | some scheduled ↦
            if ltb env.now scheduled
            then value (skipped not_due, t)
            else automatic_due env t j scheduled
      ]

  unfoldable pub automatic_body : TriggerEnv → ℕ → Tables → Answer (AutomaticResult × Tables)
  unfolding lock automatic_locked
  automatic_body env id t = elim (lock (env.fault Statement.lock_job) id t.jobs) [
    | failed e ↦ if is_not_found e then value (skipped not_found, t) else failed e
    | value j ↦ automatic_locked env t j
  ]

  abbrev pub automatic_answer :
      Tables × Answer AutomaticResult → Tables × Answer AutomaticResult × Option ℕ
  automatic_answer (t, failed e) = (t, failed e, none)
  automatic_answer (t, value r) = (t, value r, if r.created then some r.instance_id else none)

  unfoldable pub trigger_automatic :
      TriggerEnv → ℕ → Tables → Tables × Answer AutomaticResult × Option ℕ
  unfolding automatic_body commit
  trigger_automatic env id t = if id == 0 then (t, failed invalid_input, none) else elim env.slot [
    | some e ↦ (t, failed e, none)
    | none ↦ automatic_answer (commit env.commit t (automatic_body env id t))
  ]
