-- ===== src/TaskStore/Once.antt =====
-- job_task_repository.go: an attempt is closed once, whatever is written to the table in between.
use Prim.Native.String.{String}
use dogx.Common.{
  ℕ, suc, ◌<◌, ◌≡◌, ◌≢◌, refl, sym, ◌∙◌, subst, ◌==◌, Bool, true, false, List, [], ◌∷◌, All, arith,
  Bool-cases, inl, inr, ◌⊎◌,
}
use dogx.Model.{Time}
use dogx.Model.Task
use dogx.Model.Task.{JobTask}
use dogx.Database.{ok, Reply, update, affected}
use dogx.Database.Updates.{update-eq_of_none, update-All, affected-zero, Unique, away}
use dogx.TaskStore.Dispatch.{bound, accepts_binding, busy, rejected}
use dogx.TaskStore.Start.{new_ordinary, registered, accepts_registration}
use dogx.TaskStore.Outcome.{
  resulted, accepts_result, settled, accepts_settlement, cancelled, accepts_cancellation,
}
use dogx.TaskStore.History.{
  Write, inserts, apply, run, RowChange, binding, refused, turned_down, retried, reported, unknown,
  stopped, Effect, nothing, inserted, updated,
}
use dogx.TaskStore.Effects.{apply-Effect}
use dogx.TaskStore.Races.{
  Closer, close, accepts, change, task_of, closed_attempt, accepts-id, accepts-attempt,
  accepts-running, change-same, closed, close-Closed, close-Unmatched,
}

-- A row of the Task has left the attempt behind: its number is higher, or it does not run.
abbrev Past : ℕ → ℕ → JobTask → Type 0
Past id n t =
    t.id ≡ id → (n < t.attempt_no) ⊎ ((t.attempt_no ≡ n) × (Task.is_running t.status ≡ false))

RowChange-Past : (id n : ℕ) {t u : JobTask} → RowChange t u → Past id n t → Past id n u
unfolding accepts_binding bound busy rejected registered accepts_registration accepts_result
    resulted settled accepts_settlement cancelled accepts_cancellation
RowChange-Past id n {t} (binding b now a) p e = ground (arith, p e)
RowChange-Past id n {t} (refused interval w now a) p e = ground (arith, p e)
RowChange-Past id n {t} (turned_down w total now a) p e = ground (arith, p e)
RowChange-Past id n {t} (retried w a) p e = ground (arith, p e)
RowChange-Past id n {t} (reported w now v a) p e = ground (arith, p e)
RowChange-Past id n {t} (unknown w a) p e = ground (arith, p e)
RowChange-Past id n {t} (stopped w a) p e = ground (arith, p e)

-- A call that does not insert the ID again keeps the attempt behind.
Effect-Past :
    (id n : ℕ) (ids : ℕ → Bool) (rows rows' : List JobTask)
    → ids id ≡ false
    → Effect ids rows rows'
    → All (Past id n) rows
    → All (Past id n) rows'
unfolding new_ordinary
Effect-Past id n ids rows rows' f (nothing e) p = subst (All (Past id n)) (sym e) p
Effect-Past id n ids rows rows' f (inserted k instance at g e) p =
    let other : Past id n (new_ordinary k instance at) =
      (λ (s : k ≡ id). absurd (let g' = subst (λ x. ids x ≡ true) s g in cc)) in
    subst (All (Past id n)) (sym e) (other, p)
Effect-Past id n ids rows rows' f (updated acc chg row e) p =
    subst (All (Past id n)) (sym e)
      (update-All acc chg (λ t a. RowChange-Past id n {t = t} {u = chg t} (row t a)) rows p)

-- The rows after the UPDATE that closed the attempt.
module _ (id n : ℕ) (acc : JobTask → Bool) (chg : JobTask → JobTask)
    (only : (t : JobTask) → acc t ≡ true → t.id ≡ id)
    (number : (t : JobTask) → acc t ≡ true → t.attempt_no ≡ n)
    (shut : (t : JobTask) → Task.is_running (chg t).status ≡ false)
    (same : (t : JobTask) → ((chg t).id ≡ t.id) × ((chg t).attempt_no ≡ t.attempt_no)) where
  others_Past :
      (t : JobTask) (ts : List JobTask)
      → t.id ≡ id
      → All (λ (u : JobTask). (u.id == t.id) ≡ false) ts
      → All (Past id n) ts
  others_Past t [] e h = tt
  others_Past t (u ∷ us) e h = ((λ k. absurd (let x = h.0 in ground arith)), others_Past t us e h.1)

  update-Past :
      (rows : List JobTask)
      → Unique (λ (t : JobTask). t.id) rows
      → affected acc rows ≡ 1
      → All (Past id n) (update acc chg rows)
  update-Past [] u h = tt
  update-Past (t ∷ ts) u h = elim (Bool-cases (acc t)) [
    | inl a ↦
        let none_left : affected acc ts ≡ 0 =
          (let k : suc (affected acc ts) ≡ 1 = rw a at h in omega arith) in
        let p : Past id n (chg t) = (λ _. inr ((same t).1 ∙ number t a, shut t)) in
        rw (a, update-eq_of_none acc chg ts none_left) (p, others_Past t ts (only t a) u.0)
    | inr a ↦
        let one : affected acc ts ≡ 1 = rw a at h in
        let p : Past id n t = (λ e. absurd (
          let z = affected-zero acc ts (away (λ (x : JobTask). x.id) id acc only t e ts u.0) in
          omega arith)) in
        rw a (p, update-Past ts u.1 one)
  ]

affected-Past :
    (is_uuid4 : ℕ → Bool) (interval : ℕ → ℕ) (b : Closer) (rows : List JobTask)
    → All (Past (task_of is_uuid4 interval b) (closed_attempt is_uuid4 interval b)) rows
    → affected (accepts is_uuid4 interval b) rows ≡ 0
affected-Past is_uuid4 interval b [] p = refl
affected-Past is_uuid4 interval b (t ∷ ts) p = elim (Bool-cases (accepts is_uuid4 interval b t)) [
  | inl a ↦ absurd (
      let x = p.0 (accepts-id is_uuid4 interval b t a) in
      let y = accepts-attempt is_uuid4 interval b t a in
      let z = accepts-running is_uuid4 interval b t a in ground arith)
  | inr a ↦ rw a (affected-Past is_uuid4 interval b ts p.1)
]

module _ (is_uuid4 : ℕ → Bool) (valid_address : String → Bool) (interval : ℕ → ℕ) where
  run-Past :
      (id n : ℕ) (ws : List Write) (rows : List JobTask)
      → All (λ w. inserts w id ≡ false) ws
      → All (Past id n) rows
      → All (Past id n) (run is_uuid4 valid_address interval ws rows)
  unfolding run
  run-Past id n [] rows f p = p
  run-Past id n (w ∷ ws) rows f p =
      run-Past id n ws (apply is_uuid4 valid_address interval w rows) f.1 (
        Effect-Past id n (inserts w) rows (apply is_uuid4 valid_address interval w rows) f.0
          (apply-Effect is_uuid4 valid_address interval w rows) p)

  -- A result, BUSY, a rejection or an unknown-result write has answered that it closed the attempt
  -- (`ok true`), in a table where no two rows have the same ID. After it come any writes of the
  -- repository, with any failures, the registration of further attempts among them, none of which
  -- inserts the Task's ID again. Then every such write for the same Task and the same attempt, at any
  -- time and whatever the database answers, leaves the table as it is and does not answer that it
  -- closed the attempt.
  pub close_once :
      (a b : Closer) (r s : Reply) (now later : Time) (ws : List Write) (rows rows' : List JobTask)
      → Unique (λ (t : JobTask). t.id) rows
      → task_of is_uuid4 interval a ≡ task_of is_uuid4 interval b
      → closed_attempt is_uuid4 interval a ≡ closed_attempt is_uuid4 interval b
      → close is_uuid4 interval a r now rows ≡ (rows', ok true)
      → All (λ w. inserts w (task_of is_uuid4 interval a) ≡ false) ws
      → ((close is_uuid4 interval b s later (run is_uuid4 valid_address interval ws rows')).0
          ≡ run is_uuid4 valid_address interval ws rows')
        × ((close is_uuid4 interval b s later (run is_uuid4 valid_address interval ws rows')).1
            ≢ ok true)
  close_once a b r s now later ws rows rows' u e k h f =
      elim (close-Closed is_uuid4 interval a r now rows rows' h) [
        | closed shut one eq ↦
            let id = task_of is_uuid4 interval a in
            let n = closed_attempt is_uuid4 interval a in
            let c = change is_uuid4 interval a now in
            let p : All (Past id n) rows' = subst (All (Past id n)) (sym eq) (
              update-Past id n (accepts is_uuid4 interval a) c (accepts-id is_uuid4 interval a)
                (accepts-attempt is_uuid4 interval a) shut (change-same is_uuid4 interval a now)
                rows u one) in
            let q = run-Past id n ws rows' f p in
            close-Unmatched is_uuid4 interval b s later
              (run is_uuid4 valid_address interval ws rows')
              (affected-Past is_uuid4 interval b (run is_uuid4 valid_address interval ws rows') (
                subst
                  (λ j.
                    All (Past j (closed_attempt is_uuid4 interval b))
                      (run is_uuid4 valid_address interval ws rows'))
                  e
                  (subst (λ j. All (Past id j) (run is_uuid4 valid_address interval ws rows')) k
                    q)))
      ]
