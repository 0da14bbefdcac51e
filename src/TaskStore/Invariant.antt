-- ===== src/TaskStore/Invariant.antt =====
-- What any history of the writes of job_task_repository.go keeps.
use Prim.Native.String.{String}
use dogx.Common.{
  ℕ, ◌≤◌, ◌≡◌, refl, sym, ◌∙◌, ◌⊎◌, inl, inr, Bool, true, List, [], ◌∷◌, All, arith, subst,
}
use dogx.Model.{Time}
use dogx.Model.Task
use dogx.Model.Task.{JobTask, TaskStatus}
use dogx.Database.Updates.{update-All, update-Rowwise, Rowwise, Rowwise-refl}
use dogx.TaskStore.Start.{new_ordinary}
use dogx.TaskStore.Consistency.{
  IsConsistent, bound-IsConsistent, busy-IsConsistent, rejected-IsConsistent,
  registered-IsConsistent, settled-IsConsistent, cancelled-IsConsistent, resulted-IsConsistent,
  new_ordinary-IsConsistent,
}
use dogx.TaskStore.History.{
  Write, apply, run, RowChange, binding, refused, turned_down, retried, reported, unknown, stopped,
  Effect, nothing, inserted, updated,
}
use dogx.TaskStore.Evolution.{Evolves, Evolves-refl, RowChange-Evolves}
use dogx.TaskStore.Effects.{apply-Effect}

RowChange-IsConsistent : {t u : JobTask} → RowChange t u → IsConsistent t → IsConsistent u
RowChange-IsConsistent {t} (binding b now a) c = bound-IsConsistent t c b now
RowChange-IsConsistent {t} (refused interval w now a) c = busy-IsConsistent t c interval w now
RowChange-IsConsistent {t} (turned_down w total now a) c = rejected-IsConsistent t c w total now
RowChange-IsConsistent {t} (retried w a) c = registered-IsConsistent t c w
RowChange-IsConsistent {t} (reported w now v a) c = resulted-IsConsistent t c w now v
RowChange-IsConsistent {t} (unknown w a) c = settled-IsConsistent t c w
RowChange-IsConsistent {t} (stopped w a) c = cancelled-IsConsistent t c w

module _ (P : JobTask → Type 0) (rows : List JobTask)
    (keep : (t u : JobTask) → RowChange t u → P t → P u)
    (fresh : (next instance : ℕ) (at : Time) → P (new_ordinary next instance at)) where
  Effect-All :
      {ids : ℕ → Bool} {rows' : List JobTask} → Effect ids rows rows' → All P rows → All P rows'
  Effect-All (nothing e) h = subst (All P) (sym e) h
  Effect-All (inserted next instance at k e) h = subst (All P) (sym e) (fresh next instance at, h)
  Effect-All (updated accepts change row e) h =
      subst (All P) (sym e) (update-All accepts change (λ t a. keep t (change t) (row t a)) rows h)

-- A longer table whose older rows are each related to what they were.
pub data Extends (R : JobTask → JobTask → Type 0) (rows : List JobTask)
    : List JobTask → Type 0 where
  rowwise : {rows' : List JobTask} → Rowwise R rows rows' → Extends R rows rows'
  added : {rows' : List JobTask} (t : JobTask) → Extends R rows rows' → Extends R rows (t ∷ rows')

-- What becomes of a row over a history: the same Task of the same Instance, with the same first
-- start, a number that never falls, and once finished the same row for ever.
pub record Follows (t u : JobTask) : Type 0 where
  pub same_id : u.id ≡ t.id
  pub same_instance : u.instance_id ≡ t.instance_id
  pub same_type : u.task_type ≡ t.task_type
  pub same_start : u.started_at ≡ t.started_at
  pub numbered : t.attempt_no ≤ u.attempt_no
  pub final : Task.is_terminal t.status ≡ true → u ≡ t

Follows-refl : (t : JobTask) → Follows t t
Follows-refl t = record {
  same_id = refl;
  same_instance = refl;
  same_type = refl;
  same_start = refl;
  numbered = omega arith;
  final = λ _. refl;
}

Evolves-Follows : {t u : JobTask} → Evolves t u → Follows t u
Evolves-Follows e = record {
  same_id = e.same_id;
  same_instance = e.same_instance;
  same_type = e.same_type;
  same_start = e.same_start;
  numbered = ground (arith, e.numbered);
  final = e.final;
}

Follows-trans : (t u v : JobTask) → Follows t u → Follows u v → Follows t v
Follows-trans t u v p q = record {
  same_id = q.same_id ∙ p.same_id;
  same_instance = q.same_instance ∙ p.same_instance;
  same_type = q.same_type ∙ p.same_type;
  same_start = q.same_start ∙ p.same_start;
  numbered = omega (arith, p.numbered, q.numbered);
  final =
      λ h. q.final (subst (λ w. Task.is_terminal w.status ≡ true) (sym (p.final h)) h) ∙ p.final h;
}

Rowwise-trans :
    (xs ys zs : List JobTask)
    → Rowwise Follows xs ys
    → Rowwise Follows ys zs
    → Rowwise Follows xs zs
Rowwise-trans [] [] [] p q = tt
Rowwise-trans [] [] (c ∷ zs) p q = absurd q
Rowwise-trans [] (b ∷ ys) zs p q = absurd p
Rowwise-trans (a ∷ xs) [] zs p q = absurd p
Rowwise-trans (a ∷ xs) (b ∷ ys) [] p q = absurd q
Rowwise-trans (a ∷ xs) (b ∷ ys) (c ∷ zs) p q =
    (Follows-trans a b c p.0 q.0, Rowwise-trans xs ys zs p.1 q.1)

Effect-Extends :
    {ids : ℕ → Bool} (rows rows' : List JobTask)
    → Effect ids rows rows'
    → Extends Follows rows rows'
Effect-Extends rows rows' (nothing e) =
    subst (Extends Follows rows) (sym e) (rowwise (Rowwise-refl Follows Follows-refl rows))
Effect-Extends rows rows' (inserted next instance at k e) =
    subst (Extends Follows rows) (sym e)
      (added (new_ordinary next instance at) (rowwise (Rowwise-refl Follows Follows-refl rows)))
Effect-Extends rows rows' (updated accepts change row e) = subst (Extends Follows rows) (sym e) (
    rowwise (
      update-Rowwise accepts change Follows Follows-refl
        (λ t a. Evolves-Follows (RowChange-Evolves (row t a))) rows))

Extends-Rowwise :
    {rows rows1 : List JobTask} (rows2 : List JobTask)
    → Extends Follows rows rows1
    → Rowwise Follows rows1 rows2
    → Extends Follows rows rows2
Extends-Rowwise {rows} {rows1} rows2 (rowwise p) q = rowwise (Rowwise-trans rows rows1 rows2 p q)
Extends-Rowwise [] (added t p) q = absurd q
Extends-Rowwise (u ∷ us) (added t p) q = added u (Extends-Rowwise us p q.1)

Extends-trans :
    {rows rows1 rows2 : List JobTask}
    → Extends Follows rows rows1
    → Extends Follows rows1 rows2
    → Extends Follows rows rows2
Extends-trans {rows2 = rows2} p (rowwise q) = Extends-Rowwise rows2 p q
Extends-trans p (added t q) = added t (Extends-trans p q)

Effect-Evolves :
    {ids : ℕ → Bool} (rows : List JobTask) {rows' : List JobTask}
    → Effect ids rows rows'
    → Rowwise Evolves rows rows' ⊎ ((t : JobTask) × (rows' ≡ t ∷ rows) × (t.attempt_no ≡ 1))
unfolding new_ordinary
Effect-Evolves rows (nothing e) =
    inl (subst (Rowwise Evolves rows) (sym e) (Rowwise-refl Evolves Evolves-refl rows))
Effect-Evolves rows (inserted next instance at k e) = inr (new_ordinary next instance at, e, refl)
Effect-Evolves rows (updated accepts change row e) = inl (
    subst (Rowwise Evolves rows) (sym e) (
      update-Rowwise accepts change Evolves Evolves-refl (λ t a. RowChange-Evolves (row t a)) rows))

module _ (is_uuid4 : ℕ → Bool) (valid_address : String → Bool) (interval : ℕ → ℕ) where
  -- Any sequence of the repository's writes, with any failures, on a table of consistent rows leaves
  -- consistent rows: a finish time and a reason exactly on finished Tasks, a dispatch time exactly on
  -- Tasks that wait for a retry, no more opportunities used than attempts, and one on a running Task.
  pub run-IsConsistent :
      (ws : List Write) (rows : List JobTask)
      → All IsConsistent rows
      → All IsConsistent (run is_uuid4 valid_address interval ws rows)
  unfolding run
  run-IsConsistent [] rows h = h
  run-IsConsistent (w ∷ ws) rows h =
      run-IsConsistent ws (apply is_uuid4 valid_address interval w rows) (
        Effect-All IsConsistent rows (λ t u. RowChange-IsConsistent {t = t} {u = u})
          new_ordinary-IsConsistent (apply-Effect is_uuid4 valid_address interval w rows) h)

  -- Any sequence of the repository's writes, with any failures, only adds rows to the table; each older
  -- row keeps its ID, Instance, type and first start, its attempt number does not fall, and a finished
  -- row is unchanged.
  pub run-Extends :
      (ws : List Write) (rows : List JobTask)
      → Extends Follows rows (run is_uuid4 valid_address interval ws rows)
  unfolding run
  run-Extends [] rows = rowwise (Rowwise-refl Follows Follows-refl rows)
  run-Extends (w ∷ ws) rows =
      Extends-trans
        (Effect-Extends rows (apply is_uuid4 valid_address interval w rows)
          (apply-Effect is_uuid4 valid_address interval w rows))
        (run-Extends ws (apply is_uuid4 valid_address interval w rows))

  -- One write, whatever the database answers, either adds one row with attempt number 1, or moves each
  -- row along an edge of the state diagram, where the number grows, by one, only with a registered
  -- retry, a binding stays as long as the number does, and a finished row is unchanged.
  pub apply-Evolves :
      (w : Write) (rows : List JobTask)
      → Rowwise Evolves rows (apply is_uuid4 valid_address interval w rows)
        ⊎ ((t : JobTask) × (apply is_uuid4 valid_address interval w rows ≡ t ∷ rows)
            × (t.attempt_no ≡ 1))
  apply-Evolves w rows = Effect-Evolves rows (apply-Effect is_uuid4 valid_address interval w rows)
