-- ===== src/Creator/Replays.antt =====
-- trigger/creator.go: TriggerManual called again with the same request.
use Prim.Native.String.{String}
use text.Mathlib.TextPositions.{eq_refl}
use dogx.Common.{
  ℕ, ◌==◌, ==_refl, ◌≡◌, refl, subst, Bool, true, false, Option, none, some, List, ◌∷◌, inl, inr,
  arith, Bool-cases,
}
use dogx.Model.{Snapshot}
use dogx.Model.Job.{JobDefinition}
use dogx.Model.Instance.{JobInstance}
use dogx.Database.{Fault, ok}
use dogx.InstanceStore.Listings.{ManualIdentity, find_manual, manual_identity}
use dogx.InstanceStore.Writes.{insert, snapshot_row, valid_identity, conflicts}
use dogx.Creator.{
  Tables, value, Statement, TriggerEnv, ExecutionSnapshot, snapshot_of, lock, active,
  available_group,
}
use dogx.Creator.Manual.{
  ManualTrigger, replay, manual_instance, prior, replayed, inserted, create_manual,
  found_or_created, manual_body,
}
use dogx.Creator.Answers.{lock-id, >>=_value, >>=_elim, if-failed-value, from_result-value}

insert-created :
    (fault : Option Fault) (next now : ℕ) (i : JobInstance) (rows : List JobInstance) (id : ℕ)
    (rows' : List JobInstance)
    → insert fault next now i rows ≡ ok ((id, true), rows')
    → rows' ≡ snapshot_row id now i ∷ rows
unfolding insert
insert-created (some f) next now i rows id rows' h = absurd (ground arith)
insert-created none next now i rows id rows' h = elim (Bool-cases (valid_identity i)) [
  | inl v ↦ elim (Bool-cases (conflicts i rows)) [
    | inl c ↦ absurd (ground arith)
    | inr c ↦ ground arith
  ]
  | inr v ↦ absurd (ground arith)
]

module _ (encode : ExecutionSnapshot → Snapshot) (stored_params : Snapshot → Option String) where
  -- The tables hold the request with its ID.
  pub record IsReplayable (input : ManualTrigger) (t : Tables) (id : ℕ) : Type 0 where
    job : JobDefinition
    locked : lock none input.job_id t.jobs ≡ value job
    identity : ManualIdentity
    found :
        find_manual stored_params input.job_id input.request_id none t.instances
        ≡ ok (some identity)
    same : replay identity input ≡ value id

  pub manual_body-IsReplayable :
      (env : TriggerEnv) (input : ManualTrigger) (t : Tables) (id : ℕ)
      → env.fault Statement.lock_job ≡ none
      → env.fault Statement.find_request ≡ none
      → IsReplayable input t id
      → manual_body encode stored_params env input t ≡ value ((id, false), t)
  unfolding manual_body
  manual_body-IsReplayable env input t id l f r =
      let a = r.locked in let b = r.found in let c = r.same in rw (l, a, f, b, c) refl

  find_manual-none :
      (job_id request : ℕ) (fault : Option Fault) (rows : List JobInstance)
      (p : Option ManualIdentity)
      → find_manual stored_params job_id request fault rows ≡ ok p
      → find_manual stored_params job_id request none rows ≡ ok p
  unfolding find_manual
  find_manual-none job_id request none rows p h = h
  find_manual-none job_id request (some f) rows p h = absurd (ground arith)

  replayed-IsReplayable :
      (fault : Option Fault) (input : ManualTrigger) (t : Tables) (j : JobDefinition)
      (p : Option ManualIdentity) (id : ℕ) (created : Bool) (t' : Tables)
      → lock none input.job_id t.jobs ≡ value j
      → find_manual stored_params input.job_id input.request_id fault t.instances ≡ ok p
      → replayed encode stored_params t input p ≡ value ((id, created), t')
      → IsReplayable input t' id
  replayed-IsReplayable fault input t j none id created t' l f h = absurd (ground arith)
  replayed-IsReplayable fault input t j (some p) id created t' l f h =
      let (i, e, g) =
        >>=_value (replay p input) (λ i. value ((i, false), t)) ((id, created), t') h in
      let s : t ≡ t' = ground arith in
      let n : i ≡ id = ground arith in
      subst (λ u. IsReplayable input u id) s
        record {
          job = j;
          locked = l;
          identity = p;
          found = find_manual-none input.job_id input.request_id fault t.instances (some p) f;
          same = subst (λ k. replay p input ≡ value k) n e;
        }

  replay-new :
      ((c : ExecutionSnapshot) → stored_params (encode c) ≡ some c.params)
      → (j : JobDefinition) (input : ManualTrigger) (id : ℕ) (now : ℕ)
      → replay
          (manual_identity stored_params
            (snapshot_row id now (manual_instance encode stored_params j input)))
          input
        ≡ value id
  unfolding replay snapshot_row
  replay-new stored j input id now = elim (Bool-cases input.params_overridden) [
    | inl e ↦
        rw (e, stored (record (snapshot_of j) { params = input.params }), eq_refl input.params) refl
    | inr e ↦ rw e refl
  ]

  find_manual-new :
      (j : JobDefinition) (input : ManualTrigger) (id now : ℕ) (rows : List JobInstance)
      → (j.id == input.job_id) ≡ true
      → find_manual stored_params input.job_id input.request_id none
          (snapshot_row id now (manual_instance encode stored_params j input) ∷ rows)
        ≡ ok (
            some (
              manual_identity stored_params
                (snapshot_row id now (manual_instance encode stored_params j input))))
  unfolding find_manual snapshot_row
  find_manual-new j input id now rows e = rw (e, ==_refl input.request_id) refl

  inserted-IsReplayable :
      ((c : ExecutionSnapshot) → stored_params (encode c) ≡ some c.params)
      → (env : TriggerEnv) (t : Tables) (input : ManualTrigger) (j : JobDefinition)
      → lock none input.job_id t.jobs ≡ value j
      → (j.id == input.job_id) ≡ true
      → (r : (ℕ × Bool) × List JobInstance)
      → insert
          (env.fault Statement.insert_row)
          env.next_id
          env.database_now
          (manual_instance encode stored_params j input)
          t.instances
        ≡ ok r
      → (id : ℕ) (created : Bool) (t' : Tables)
      → inserted encode stored_params env t input r ≡ value ((id, created), t')
      → IsReplayable input t' id
  inserted-IsReplayable stored env t input j l same ((i, true), rows) e id created t' h =
      let k : record t { instances = rows } ≡ t' = ground arith in
      let n : i ≡ id = ground arith in
      let rows_eq =
        insert-created _ env.next_id env.database_now (manual_instance encode stored_params j input)
          _ i rows e in
      subst (λ u. IsReplayable input u id) k
        record {
          job = j;
          locked = l;
          identity =
              manual_identity stored_params
                (snapshot_row i env.database_now (manual_instance encode stored_params j input));
          found = rw rows_eq (find_manual-new j input i env.database_now t.instances same);
          same =
              subst
                (λ k.
                  replay
                    (manual_identity stored_params (
                      snapshot_row i env.database_now
                        (manual_instance encode stored_params j input)))
                    input
                  ≡ value k)
                n (replay-new stored j input i env.database_now);
        }
  inserted-IsReplayable stored env t input j l same ((i, false), rows) e id created t' h =
      let (p, f, g) = >>=_value _ _ ((id, created), t') h in
      replayed-IsReplayable (env.fault Statement.find_again) input (record t { instances = rows }) j
        p id created t' l (from_result-value _ p f) g

  create_manual-IsReplayable :
      ((c : ExecutionSnapshot) → stored_params (encode c) ≡ some c.params)
      → (env : TriggerEnv) (t : Tables) (input : ManualTrigger) (j : JobDefinition)
      → lock none input.job_id t.jobs ≡ value j
      → (j.id == input.job_id) ≡ true
      → (id : ℕ) (created : Bool) (t' : Tables)
      → create_manual encode stored_params env t input j ≡ value ((id, created), t')
      → IsReplayable input t' id
  unfolding create_manual
  create_manual-IsReplayable stored env t input j l same id created t' h =
      >>=_elim (available_group (env.fault Statement.check_group) j.executor_group_id t.groups) h
        (λ _ _ h1. >>=_elim (active env j t.instances) h1 (λ busy _ h2.
          >>=_elim _ (if-failed-value busy _ _ _ h2).1 (λ r e h3.
            inserted-IsReplayable stored env t input j l same r (from_result-value _ r e) id created
              t' h3)))

  found_or_created-IsReplayable :
      ((c : ExecutionSnapshot) → stored_params (encode c) ≡ some c.params)
      → (env : TriggerEnv) (t : Tables) (input : ManualTrigger) (j : JobDefinition)
      → lock none input.job_id t.jobs ≡ value j
      → (j.id == input.job_id) ≡ true
      → (p : Option ManualIdentity) (id : ℕ) (created : Bool) (t' : Tables)
      → prior encode stored_params env Statement.find_request input t.instances ≡ value p
      → found_or_created encode stored_params env t input j p ≡ value ((id, created), t')
      → IsReplayable input t' id
  found_or_created-IsReplayable stored env t input j l same none id created t' f h =
      create_manual-IsReplayable stored env t input j l same id created t' h
  found_or_created-IsReplayable stored env t input j l same (some p) id created t' f h =
      replayed-IsReplayable (env.fault Statement.find_request) input t j (some p) id created t' l
        (from_result-value _ (some p) f) h

  pub body-IsReplayable :
      ((c : ExecutionSnapshot) → stored_params (encode c) ≡ some c.params)
      → (env : TriggerEnv) (input : ManualTrigger) (t : Tables) (id : ℕ) (created : Bool)
        (t' : Tables)
      → manual_body encode stored_params env input t ≡ value ((id, created), t')
      → IsReplayable input t' id
  unfolding manual_body
  body-IsReplayable stored env input t id created t' h =
      let (j, l, h1) = >>=_value _ _ ((id, created), t') h in
      let (p, f, h2) = >>=_value _ _ ((id, created), t') h1 in
      let k = lock-id _ input.job_id t.jobs j l in
      found_or_created-IsReplayable stored env t input j k.0 k.1 p id created t' f h2
