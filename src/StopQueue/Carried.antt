-- ===== src/StopQueue/Carried.antt =====
-- instancestop: what a turn does to each child of the Instance that it stops.
use Prim.Native.String.{String}
use dogx.Common.{ℕ, ◌≡◌, subst, true, false, none, some, List, [], ◌∷◌, arith}
use dogx.Model.{Time, EndReason}
use dogx.Model.Task.{JobTask, TaskStatus}
use dogx.Database.{update}
use dogx.Database.Updates.{Rowwise, update-Rowwise}
use dogx.InstanceStore.Writes.{stop_target}
use dogx.TaskStore.Outcome.{TaskCancellation, accepts_cancellation, cancelled}
use dogx.Stop.Batch.{stop_outcome, is_unfinished_of}
use dogx.Stop.Children.{unfinished}

-- The row that a stop leaves of an unfinished child.
abbrev pub canceled_child : EndReason → String → Time → JobTask → JobTask
canceled_child reason summary at t = record t {
  status = TaskStatus.canceled;
  next_dispatch_at = none;
  finished_at = some at;
  end_reason = some reason;
  result_data = none;
  result_summary = some summary;
  updated_at = at;
}

module _ (id : ℕ) (reason : EndReason) where
  -- What some batches do to a row: nothing, or they cancel an unfinished child for the stop's reason.
  pub data Carried (t : JobTask) : JobTask → Type 0 where
    kept : Carried t t
    canceled :
        (at : Time) (summary : String)
        → is_unfinished_of id t ≡ true
        → stop_outcome (some reason) ≡ some (stop_target reason, reason, summary)
        → Carried t (canceled_child reason summary at t)

  -- What the whole stop does to a row: every unfinished child is cancelled, and nothing else changes.
  pub data Stopped (t : JobTask) : JobTask → Type 0 where
    untouched : is_unfinished_of id t ≡ false → Stopped t t
    stopped :
        (at : Time) (summary : String)
        → is_unfinished_of id t ≡ true
        → stop_outcome (some reason) ≡ some (stop_target reason, reason, summary)
        → Stopped t (canceled_child reason summary at t)

  Carried-trans : (t u v : JobTask) → Carried t u → Carried u v → Carried t v
  Carried-trans t _ v kept q = q
  Carried-trans t _ _ (canceled at summary a o) kept = canceled at summary a o
  Carried-trans t _ _ (canceled at summary a o) (canceled at' summary' b o') = absurd (ground arith)

  pub trans_Carried :
      (ts us vs : List JobTask)
      → Rowwise Carried ts us
      → Rowwise Carried us vs
      → Rowwise Carried ts vs
  trans_Carried [] [] [] p q = tt
  trans_Carried [] [] (c ∷ vs) p q = absurd q
  trans_Carried [] (b ∷ us) vs p q = absurd p
  trans_Carried (a ∷ ts) [] vs p q = absurd p
  trans_Carried (a ∷ ts) (b ∷ us) [] p q = absurd q
  trans_Carried (a ∷ ts) (b ∷ us) (c ∷ vs) p q =
      (Carried-trans a b c p.0 q.0, trans_Carried ts us vs p.1 q.1)

  -- One statement of a batch.
  pub update-Carried :
      (w : TaskCancellation) (summary : String) (ts : List JobTask)
      → w.instance_id ≡ id
      → w.reason ≡ reason
      → w.summary ≡ summary
      → stop_outcome (some reason) ≡ some (stop_target reason, reason, summary)
      → Rowwise Carried ts (update (accepts_cancellation w) (cancelled w) ts)
  unfolding accepts_cancellation cancelled
  update-Carried w summary ts e r m o =
      update-Rowwise (accepts_cancellation w) (cancelled w) Carried (λ t. kept)
        (λ t a.
          subst (λ (p : EndReason × String). Carried t (canceled_child p.0 p.1 w.processed_at t))
            (ground arith) (canceled w.processed_at summary (ground arith) o))
        ts

  Carried-Stopped : (t u : JobTask) → is_unfinished_of id u ≡ false → Carried t u → Stopped t u
  Carried-Stopped t _ h kept = untouched h
  Carried-Stopped t _ h (canceled at summary a o) = stopped at summary a o

  pub all_Stopped :
      (ts us : List JobTask) → unfinished id us ≡ 0 → Rowwise Carried ts us → Rowwise Stopped ts us
  all_Stopped [] [] z p = tt
  all_Stopped [] (u ∷ us) z p = absurd p
  all_Stopped (t ∷ ts) [] z p = absurd p
  all_Stopped (t ∷ ts) (u ∷ us) z p =
      (Carried-Stopped t u (ground arith) p.0, all_Stopped ts us (ground arith) p.1)
