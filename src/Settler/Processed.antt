-- ===== src/Settler/Processed.antt =====
-- taskrecovery/settler.go: which candidates of a batch are processed, and what a batch comes to.
use dogx.Common.{
  ℕ, ◌+◌, ◌≡◌, refl, subst, ◌==◌, leb, Bool, true, false, Option, none, some, List, [], ◌∷◌, ◌++◌,
  length, map, arith, ap, Bool-cases, Option-cases, inl, inr,
}
use dogx.Model.{Time, is_zero, Snapshot}
use dogx.Model.Task.{JobTask}
use dogx.Database.{Error, invalid_argument, invalid_facts, ok, err}
use dogx.Settler.{UnboundCandidate, UnboundTarget, FrozenBudget, max_batch_size}
use dogx.Database.Updates.{Result-cases}
use dogx.Settler.Batch.{
  Run, SettleEnv, valid_candidates, valid_targets, candidate_id, new_run, settle_one, settle_each,
  settle_read, settle_batch,
}
use dogx.Settler.Turns.{Turn, Turn-counts, settle_one-IsTurn}

module _ (unmarshal : Snapshot → Option FrozenBudget) (period : Time) (env : SettleEnv) where
  -- The turns of a batch from the k-th on, with the candidates that were processed; the first error
  -- ends it.
  pub data Turns (targets : List UnboundTarget) (now : Time)
      : ℕ → List UnboundCandidate → Run → List UnboundCandidate → Run × Option Error → Type 0 where
    all_done : {k : ℕ} {r : Run} → Turns targets now k [] r [] (r, none)
    onward :
        {k : ℕ} {c : UnboundCandidate} {cs ps : List UnboundCandidate} {r r' : Run}
        {x : Run × Option Error}
        → Turn unmarshal period env targets now k c r (r', none) true
        → Turns targets now (k + 1) cs r' ps x
        → Turns targets now k (c ∷ cs) r (c ∷ ps) x
    last_one :
        {k : ℕ} {c : UnboundCandidate} {cs : List UnboundCandidate} {r r' : Run} {e : Error}
        → Turn unmarshal period env targets now k c r (r', some e) true
        → Turns targets now k (c ∷ cs) r (c ∷ []) (r', some e)
    broken_off :
        {k : ℕ} {c : UnboundCandidate} {cs : List UnboundCandidate} {r r' : Run} {e : Error}
        → Turn unmarshal period env targets now k c r (r', some e) false
        → Turns targets now k (c ∷ cs) r [] (r', some e)

  -- The processed candidates are the first ones, the count is theirs, and all are processed when there
  -- is no error.
  pub record IsProcessed (targets : List UnboundTarget) (now : Time) (k : ℕ)
      (cs : List UnboundCandidate) (r : Run) (x : Run × Option Error) : Type 0 where
    pub processed : List UnboundCandidate
    pub rest : List UnboundCandidate
    pub split : cs ≡ processed ++ rest
    pub turns : Turns targets now k cs r processed x
    pub counts : x.0.processed ≡ r.processed + length processed
    pub whole : x.1 ≡ none → rest ≡ []

  onward-IsProcessed :
      (targets : List UnboundTarget) (now : Time) (k : ℕ) (c : UnboundCandidate)
      (cs : List UnboundCandidate) (r r' : Run) (x : Run × Option Error) (b : Bool)
      → Turn unmarshal period env targets now k c r (r', none) b
      → IsProcessed targets now (k + 1) cs r' x
      → IsProcessed targets now k (c ∷ cs) r x
  onward-IsProcessed targets now k c cs r r' x true turn p =
      let n = Turn-counts unmarshal period env targets now k c r (r', none) true turn in
      let m = p.counts in
      record {
        processed = c ∷ p.processed;
        rest = p.rest;
        split = ap (λ ys. c ∷ ys) p.split;
        turns = onward turn p.turns;
        counts = ground arith;
        whole = p.whole;
      }
  onward-IsProcessed targets now k c cs r r' x false turn p = absurd (
      let n = Turn-counts unmarshal period env targets now k c r (r', none) false turn in
      ground arith)

  stopped-IsProcessed :
      (targets : List UnboundTarget) (now : Time) (k : ℕ) (c : UnboundCandidate)
      (cs : List UnboundCandidate) (r r' : Run) (e : Error) (b : Bool)
      → Turn unmarshal period env targets now k c r (r', some e) b
      → IsProcessed targets now k (c ∷ cs) r (r', some e)
  stopped-IsProcessed targets now k c cs r r' e true turn =
      let n = Turn-counts unmarshal period env targets now k c r (r', some e) true turn in
      record {
        processed = c ∷ [];
        rest = cs;
        split = refl;
        turns = last_one turn;
        counts = ground arith;
        whole = λ h. cc;
      }
  stopped-IsProcessed targets now k c cs r r' e false turn =
      let n = Turn-counts unmarshal period env targets now k c r (r', some e) false turn in
      record {
        processed = [];
        rest = c ∷ cs;
        split = refl;
        turns = broken_off turn;
        counts = ground arith;
        whole = λ h. cc;
      }

  each-IsProcessed :
      (targets : List UnboundTarget) (now : Time) (k : ℕ) (cs : List UnboundCandidate) (r : Run)
      → IsProcessed targets now k cs r (settle_each unmarshal period env k cs targets now r)
  unfolding settle_each
  each-IsProcessed targets now k [] r = record {
    processed = [];
    rest = [];
    split = refl;
    turns = all_done;
    counts = omega arith;
    whole = λ _. refl;
  }
  each-IsProcessed targets now k (c ∷ cs) r =
      let x = settle_one unmarshal period env k c targets now r in
      let (b, turn) = settle_one-IsTurn unmarshal period env targets now k c r in
      elim (Option-cases x.1) [
        | inl p ↦
            let t : Turn unmarshal period env targets now k c r (x.0, none) b =
              subst (λ o. Turn unmarshal period env targets now k c r (x.0, o) b) p turn in
            let rest = each-IsProcessed targets now (k + 1) cs x.0 in
            subst (IsProcessed targets now k (c ∷ cs) r) (ground arith) (
              onward-IsProcessed targets now k c cs r x.0
                (settle_each unmarshal period env (k + 1) cs targets now x.0) b t rest)
        | inr (e, p) ↦
            let t : Turn unmarshal period env targets now k c r (x.0, some e) b =
              subst (λ o. Turn unmarshal period env targets now k c r (x.0, o) b) p turn in
            subst (IsProcessed targets now k (c ∷ cs) r) (ground arith)
              (stopped-IsProcessed targets now k c cs r x.0 e b t)
      ]

  -- Why a batch is refused before its first candidate.
  pub data Refusal (cs : List UnboundCandidate) : Error → Type 0 where
    too_many : leb (length cs) max_batch_size ≡ false → Refusal cs invalid_argument
    bad_candidate : valid_candidates cs ≡ false → Refusal cs invalid_argument
    no_clock : (e : Error) → env.clock ≡ err e → Refusal cs e
    zero_clock : env.clock ≡ ok 0 → Refusal cs invalid_facts
    no_targets : (e : Error) → env.targets ≡ err e → Refusal cs e
    bad_targets :
        (targets : List UnboundTarget)
        → env.targets ≡ ok targets
        → valid_targets (map candidate_id cs) [] targets ≡ false
        → Refusal cs invalid_facts

  pub data BatchEnd (cs : List UnboundCandidate) (tasks : List JobTask)
      : Run × Option Error → Type 0 where
    empty : cs ≡ [] → BatchEnd cs tasks (new_run tasks, none)
    refused : (e : Error) → Refusal cs e → BatchEnd cs tasks (new_run tasks, some e)
    ran :
        (now : Time) (targets : List UnboundTarget) (x : Run × Option Error)
        → env.clock ≡ ok now
        → env.targets ≡ ok targets
        → valid_targets (map candidate_id cs) [] targets ≡ true
        → IsProcessed targets now 0 cs (new_run tasks) x
        → BatchEnd cs tasks x

  empty_of_length : (cs : List UnboundCandidate) → (length cs == 0) ≡ true → cs ≡ []
  empty_of_length [] h = refl
  empty_of_length (c ∷ cs) h = absurd (ground arith)

  read-BatchEnd :
      (cs : List UnboundCandidate) (tasks : List JobTask) (now : Time)
      (targets : List UnboundTarget)
      → env.clock ≡ ok now
      → env.targets ≡ ok targets
      → BatchEnd cs tasks (settle_read unmarshal period env cs tasks now targets)
  unfolding settle_read
  read-BatchEnd cs tasks now targets c t =
      elim (Bool-cases (valid_targets (map candidate_id cs) [] targets)) [
        | inl v ↦
            let x = settle_each unmarshal period env 0 cs targets now (new_run tasks) in
            subst (BatchEnd cs tasks) (ground arith)
              (ran now targets x c t v (each-IsProcessed targets now 0 cs (new_run tasks)))
        | inr v ↦
            subst (BatchEnd cs tasks) (ground arith)
              (refused invalid_facts (bad_targets targets t v))
      ]

  -- A batch, on any table and whatever the environment answers, is empty; or is refused for one of the
  -- named causes, with nothing counted, hinted or written; or processes its first candidates, one after
  -- another, counts exactly these, and all of them when it ends without an error. A processed candidate
  -- has no target, is skipped, hints its parent, or has its write answered, whatever the answer, and
  -- counts as applied, with a hint, exactly when that answer is its settled Task. A candidate before
  -- which the Context ends, whose facts cannot be used, or whose write is not begun ends the batch
  -- uncounted.
  pub settle_batch-BatchEnd :
      (cs : List UnboundCandidate) (tasks : List JobTask)
      → BatchEnd cs tasks (settle_batch unmarshal period env cs tasks)
  unfolding settle_batch
  settle_batch-BatchEnd cs tasks =
      let B = BatchEnd cs tasks in
      elim (Bool-cases (leb (length cs) max_batch_size)) [
        | inr l ↦ subst B (ground arith) (refused invalid_argument (too_many l))
        | inl l ↦ elim (Bool-cases (length cs == 0)) [
          | inl z ↦ subst B (ground arith) (empty (empty_of_length cs z))
          | inr z ↦ elim (Bool-cases (valid_candidates cs)) [
            | inr v ↦ subst B (ground arith) (refused invalid_argument (bad_candidate v))
            | inl v ↦ elim (Result-cases env.clock) [
              | inr (e, p) ↦ subst B (ground arith) (refused e (no_clock e p))
              | inl (now, p) ↦ elim (Bool-cases (is_zero now)) [
                | inl q ↦ subst B (ground arith) (refused invalid_facts (zero_clock (ground arith)))
                | inr q ↦ elim (Result-cases env.targets) [
                  | inr (e, t) ↦ subst B (ground arith) (refused e (no_targets e t))
                  | inl (targets, t) ↦
                      subst B (ground arith) (read-BatchEnd cs tasks now targets p t)
                ]
              ]
            ]
          ]
        ]
      ]
