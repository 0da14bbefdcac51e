-- ===== src/Settler/Eligible.antt =====
-- taskrecovery/settler.go: what `prepare` requires of a target that is settled.
use dogx.Common.{
  ℕ, ◌-◌, ◌≡◌, ◌≤◌, ◌<◌, refl, subst, ◌==◌, ltb, leb, ◌&&◌, ◌||◌, false, Option, none, some, arith,
  Bool-cases, Option-cases, inl, inr,
}
use dogx.Model.{Time, is_zero, Snapshot}
use dogx.Model.Task.{TaskType, TaskStatus}
use dogx.Model.Instance.{InstanceStatus}
use dogx.Database.{Result, ok, err}
use dogx.TaskStore.Outcome.{UnknownSettlement}
use dogx.Stop.{is_set, is_after}
use dogx.Settler.{
  UnboundCandidate, UnboundTarget, FrozenBudget, write, frozen_budget, settlement, budgeted,
  prepare_parent, prepare_observed, prepare_status, prepare_type, prepare,
}

module _ (unmarshal : Snapshot → Option FrozenBudget) (period : Time) where
  -- The facts that allow a settlement.
  pub record IsEligible (c : UnboundCandidate) (t : UnboundTarget) (now : Time)
      (w : UnknownSettlement) : Type 0 where
    pub same_attempt : (t.instance_id ≡ c.instance_id) × (t.attempt_no ≡ c.attempt_no)
    pub ordinary : t.task_type ≡ TaskType.ordinary
    pub runs : t.status ≡ TaskStatus.running
    pub unbound : t.is_bound ≡ false
    pub observed : (at : Time) × (t.attempt_registered_at ≡ some at) × (at ≤ now - period)
    pub parent_runs : t.instance_status ≡ InstanceStatus.running
    pub in_time : (deadline : Time) × (t.deadline_at ≡ some deadline) × (now < deadline)
    pub budget :
        (n : ℕ) × (interval : Time) × (frozen_budget unmarshal period t.execution_config
          ≡ ok (some (n, interval)))
        × (w ≡ settlement unmarshal period c now n interval)

  budgeted-write :
      (c : UnboundCandidate) (now : Time) (w : UnknownSettlement) (r : Result (Option (ℕ × Time)))
      → budgeted unmarshal period c now r ≡ ok (write w)
      → (n : ℕ) × (interval : Time) × (r ≡ ok (some (n, interval)))
        × (w ≡ settlement unmarshal period c now n interval)
  budgeted-write c now w (err e) h = cc
  budgeted-write c now w (ok none) h = cc
  budgeted-write c now w (ok (some (n, interval))) h = (n, interval, refl, ground arith)

  module _ (c : UnboundCandidate) (t : UnboundTarget) (now : Time) (w : UnknownSettlement) where
    running-write :
        prepare_parent unmarshal period c t now InstanceStatus.running ≡ ok (write w)
        → (deadline : Time) × (t.deadline_at ≡ some deadline)
          × (now < deadline)
          × (budgeted unmarshal period c now (frozen_budget unmarshal period t.execution_config)
              ≡ ok (write w))
    unfolding prepare_parent
    running-write h =
        elim (Bool-cases (is_set t.started_at && is_after t.deadline_at t.started_at)) [
          | inr bad ↦ absurd (ground arith)
          | inl good ↦ elim (Option-cases t.deadline_at) [
            | inl p ↦ absurd (ground arith)
            | inr (deadline, p) ↦ elim (Bool-cases (leb deadline now)) [
              | inl late ↦ absurd (ground arith)
              | inr early ↦ (deadline, p, ground arith, ground arith)
            ]
          ]
        ]

    parent-write :
        (s : InstanceStatus)
        → prepare_parent unmarshal period c t now s ≡ ok (write w)
        → s ≡ InstanceStatus.running
    unfolding prepare_parent
    parent-write InstanceStatus.running h = refl
    parent-write InstanceStatus.succeeded h = cc
    parent-write InstanceStatus.failed h = cc
    parent-write InstanceStatus.canceled h = cc
    parent-write InstanceStatus.stopping h = cc
    parent-write InstanceStatus.waiting h = cc
    parent-write (InstanceStatus.unknown n) h = cc

    observed-write :
        prepare_observed unmarshal period c t now ≡ ok (write w)
        → (t.is_bound ≡ false)
          × ((at : Time) × (t.attempt_registered_at ≡ some at) × (at ≤ now - period))
          × (prepare_parent unmarshal period c t now t.instance_status ≡ ok (write w))
    unfolding prepare_observed
    observed-write h = elim (Bool-cases t.is_bound) [
      | inl b ↦ absurd (ground arith)
      | inr b ↦ elim (Option-cases t.attempt_registered_at) [
        | inl p ↦ absurd (ground arith)
        | inr (at, p) ↦ elim (Bool-cases (is_zero at || ltb (now - period) at)) [
          | inl bad ↦ absurd (ground arith)
          | inr good ↦ (b, (at, p, ground arith), ground arith)
        ]
      ]
    ]

    status-write :
        (s : TaskStatus)
        → prepare_status unmarshal period c t now s ≡ ok (write w)
        → (s ≡ TaskStatus.running) × (prepare_observed unmarshal period c t now ≡ ok (write w))
    unfolding prepare_status
    status-write TaskStatus.running h = (refl, h)
    status-write TaskStatus.waiting h = cc
    status-write TaskStatus.retry_waiting h = cc
    status-write TaskStatus.succeeded h = cc
    status-write TaskStatus.failed h = cc
    status-write TaskStatus.canceled h = cc
    status-write (TaskStatus.unknown n) h = cc

    type-write :
        (k : TaskType)
        → prepare_type unmarshal period c t now k ≡ ok (write w)
        → (k ≡ TaskType.ordinary)
          × (prepare_status unmarshal period c t now t.status ≡ ok (write w))
    unfolding prepare_type
    type-write TaskType.ordinary h = (refl, h)
    type-write TaskType.prepare h = cc
    type-write TaskType.shard h = cc
    type-write TaskType.post h = cc
    type-write (TaskType.unknown n) h = cc

    prepare-write :
        prepare unmarshal period c t now ≡ ok (write w)
        → (t.instance_id ≡ c.instance_id)
          × (t.attempt_no ≡ c.attempt_no)
          × (prepare_type unmarshal period c t now t.task_type ≡ ok (write w))
    unfolding prepare
    prepare-write h =
        elim (Bool-cases (t.instance_id == c.instance_id && t.attempt_no == c.attempt_no)) [
          | inr bad ↦ absurd (ground arith)
          | inl good ↦ (ground arith, ground arith, ground arith)
        ]

  -- If `prepare` asks for a write, the target is the candidate's attempt, ordinary, running, without an
  -- executor, registered at least the observation period ago, and under a running parent before its
  -- deadline; the write is the candidate's, with the budget of the frozen configuration.
  pub prepare-IsEligible :
      (c : UnboundCandidate) (t : UnboundTarget) (now : Time) (w : UnknownSettlement)
      → prepare unmarshal period c t now ≡ ok (write w)
      → IsEligible c t now w
  prepare-IsEligible c t now w h =
      let (instance, attempt, a) = prepare-write c t now w h in
      let (ordinary, b) = type-write c t now w t.task_type a in
      let (runs, d) = status-write c t now w t.status b in
      let (unbound, observed, e) = observed-write c t now w d in
      let parent = parent-write c t now w t.instance_status e in
      let (deadline, p, early, f) =
        running-write c t now w
          (subst (λ s. prepare_parent unmarshal period c t now s ≡ ok (write w)) parent e) in
      record {
        same_attempt = (instance, attempt);
        ordinary = ordinary;
        runs = runs;
        unbound = unbound;
        observed = observed;
        parent_runs = parent;
        in_time = (deadline, p, early);
        budget = budgeted-write c now w (frozen_budget unmarshal period t.execution_config) f;
      }
