-- ===== src/Creator/Repeats.antt =====
-- trigger/creator.go: TriggerManual is idempotent in the request.
use Prim.Native.String.{String}
use dogx.Common.{
  ℕ, ◌≡◌, Bool, false, Option, none, some, inl, inr, arith, Bool-cases, Option-cases, refl,
}
use dogx.Model.{Snapshot}
use dogx.Schedule.{Grammar}
use dogx.Database.{Reply, done, aborted, unconfirmed}
use dogx.Creator.{Tables, Answer, value, failed, Statement, TriggerEnv, ExecutionSnapshot, commit}
use dogx.Creator.Manual.{
  ManualTrigger, manual_body, is_rejected, normalize_params, manual_answer, trigger_manual,
}
use dogx.Creator.Replays.{IsReplayable, body-IsReplayable, manual_body-IsReplayable}

module _ (encode : ExecutionSnapshot → Snapshot) (stored_params : Snapshot → Option String) where
  -- Only a body that succeeds and whose commit is confirmed answers with an ID.
  answer-value :
      (reply : Reply) (t : Tables) (a : Answer ((ℕ × Bool) × Tables)) (t' : Tables) (id : ℕ)
      (hint : Option ℕ)
      → manual_answer encode stored_params (commit reply t a) ≡ (t', value id, hint)
      → (created : Bool) × (a ≡ value ((id, created), t'))
  unfolding commit
  answer-value reply t (failed e) t' id hint h = absurd (ground arith)
  answer-value done t (value ((i, c), u)) t' id hint h = (c, ground arith)
  answer-value (aborted f) t (value ((i, c), u)) t' id hint h = absurd (ground arith)
  answer-value (unconfirmed f) t (value ((i, c), u)) t' id hint h = absurd (ground arith)

  trigger_manual-IsReplayable :
      ((c : ExecutionSnapshot) → stored_params (encode c) ≡ some c.params)
      → (grammar : Grammar) (env : TriggerEnv) (given : ManualTrigger) (t t' : Tables) (id : ℕ)
        (hint : Option ℕ)
      → trigger_manual encode stored_params grammar env given t ≡ (t', value id, hint)
      → (text : String) × (is_rejected given ≡ false)
        × (normalize_params grammar given.params ≡ some text)
        × IsReplayable encode stored_params (record given { params = text }) t' id
  unfolding trigger_manual
  trigger_manual-IsReplayable stored grammar env given t t' id hint h =
      elim (Bool-cases (is_rejected given)) [
        | inl g ↦ absurd (ground arith)
        | inr g ↦ elim (Option-cases (normalize_params grammar given.params)) [
          | inl n ↦ absurd (ground arith)
          | inr (text, n) ↦ elim (Option-cases env.slot) [
            | inr (e, s) ↦ absurd (ground arith)
            | inl s ↦
                let input : ManualTrigger = record given { params = text } in
                let body = manual_body encode stored_params env input t in
                let r = answer-value env.commit t body t' id hint (ground arith) in
                (
                  text,
                  g,
                  n,
                  body-IsReplayable encode stored_params stored env input t id r.0 t' r.1,
                )
          ]
        ]
      ]

  -- A request that TriggerManual has answered with an ID, whether it created the round or found it,
  -- is answered with the same ID when it is repeated on the tables that were left, changes nothing
  -- and hints nothing: whatever became of the group, the policy and the clock, as long as a permit
  -- is free, the two reads of the repetition succeed and its commit is confirmed. What `->>'params'`
  -- reads from an encoded configuration is taken to be its parameters.
  pub trigger_manual_again :
      ((c : ExecutionSnapshot) → stored_params (encode c) ≡ some c.params)
      → (grammar : Grammar) (env env' : TriggerEnv) (given : ManualTrigger) (t t' : Tables) (id : ℕ)
        (hint : Option ℕ)
      → trigger_manual encode stored_params grammar env given t ≡ (t', value id, hint)
      → env'.slot ≡ none
      → env'.fault Statement.lock_job ≡ none
      → env'.fault Statement.find_request ≡ none
      → env'.commit ≡ done
      → trigger_manual encode stored_params grammar env' given t' ≡ (t', value id, none)
  unfolding trigger_manual commit
  trigger_manual_again stored grammar env env' given t t' id hint h slot l f c =
      let (text, g, n, r) = trigger_manual-IsReplayable stored grammar env given t t' id hint h in
      let b =
        manual_body-IsReplayable encode stored_params env' (record given { params = text }) t' id l
          f r in
      rw (g, n, slot, c, b) refl
