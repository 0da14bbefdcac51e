-- ===== src/UnboundRuntime.antt =====
-- apps/job/internal/taskrecovery/runtime.go: the traversal of attempts without an executor, page by page
-- and in batches for the settler. What the clock, the queries and the settler's own environment answer
-- is given for each page; a run is over when it ends or, at the latest, with the pages it is given.
-- A clock that is not past the observation period reads as a zero cutoff.
pub mod Lifecycle
pub mod Batches
pub mod Climbs
use dogx.Common.{
  ℕ, zero, suc, ◌+◌, ◌-◌, ◌==◌, leb, ltb, if◌then◌else◌, ◌&&◌, ◌||◌, not, is_none, Bool, true,
  false, Option, none, some, List, [], ◌∷◌, ◌++◌, length, take,
}
use dogx.Common.Chains.{chained, last_of}
use dogx.Common.Keyset.{before}
use dogx.Model.{Time, is_zero, Snapshot}
use dogx.Model.Task.{JobTask}
use dogx.Model.Instance.{JobInstance}
use dogx.Database.{Fault, Error, driver, expired, invalid_facts, Result, ok, err}
use dogx.TaskStore.Listings.{UnboundCursor, unbound_key, list_unbound_candidates}
use dogx.TaskStore.Targets.{skip_rows}
use dogx.Settler.{UnboundCandidate, FrozenBudget, max_batch_size}
use dogx.Settler.Batch.{Run, SettleEnv, settle_batch}
use dogx.StopRecovery.{checked_late}

-- The cursor is the candidate that was processed last, of which the code keeps the key.
pub record Traversal : Type 0 where
  pub scan_now : Time
  pub cutoff : Time
  pub cursor : Option UnboundCandidate

abbrev pub new_traversal : Traversal
new_traversal = record { scan_now = 0; cutoff = 0; cursor = none }

abbrev pub cursor_of : Option UnboundCandidate → Option UnboundCursor
cursor_of none = none
cursor_of (some c) =
    some (record { attempt_registered_at = c.attempt_registered_at; task_id = c.task_id })

-- One batch: whether the run's Context has ended before it, the table, and the settler's environment.
pub record BatchEnv : Type 0 where
  pub ended : Bool
  pub tasks : List JobTask
  pub settle : SettleEnv

-- One page: whether the Contexts have ended before and after its query, the query's failure and
-- tables, and its batches.
pub record PageEnv : Type 0 where
  pub ended : Bool
  pub ended_late : Bool
  pub fault : Option Fault
  pub instances : List JobInstance
  pub tasks : List JobTask
  pub batches : ℕ → BatchEnv

pub data Finish : Type 0 where
  complete goes_on : Finish
  failed : Error → Finish

-- What a run leaves, with the candidates that it counts as processed.
pub record Scan : Type 0 where
  pub state : Traversal
  pub processed : List UnboundCandidate
  pub finish : Finish

unfoldable pub follows : Time → Option UnboundCandidate → UnboundCandidate → Bool
follows cutoff previous c =
    not (
      c.task_id == 0
      || c.instance_id == 0
      || c.attempt_no == 0
      || is_zero c.attempt_registered_at
      || ltb cutoff c.attempt_registered_at)
    && elim previous [ none ↦ true | some p ↦ before (unbound_key p) (unbound_key c) ]

unfoldable pub valid_unbound_page : List UnboundCandidate → Traversal → ℕ → Bool
unfolding follows chained
valid_unbound_page page s limit =
    leb (length page) limit && chained (follows s.cutoff) s.cursor page

-- The guard on what SettleBatch returned for `n` candidates.
unfoldable pub valid_result : ℕ → Run × Option Error → Bool
valid_result n (r, e) =
    leb r.processed n && leb r.applied r.processed && (not (is_none e) || r.processed == n)

-- The cursor after a batch, the candidates it counts, and the error that ends the run.
abbrev pub Batch : Type 0
Batch = Option UnboundCandidate × List UnboundCandidate × Option Error

abbrev pub no_progress : Option UnboundCandidate → Error → Batch
no_progress cursor e = (cursor, [], some e)

abbrev pub batch_end : Option UnboundCandidate → List UnboundCandidate → Run × Option Error → Batch
batch_end cursor batch (r, e) = let done = take r.processed batch in (last_of cursor done, done, e)

abbrev pub then_rest : Batch → (Option UnboundCandidate → Batch) → Batch
then_rest (cursor, done, some e) rest = (cursor, done, some e)
then_rest (cursor, done, none) rest = let r = rest cursor in (r.0, done ++ r.1, r.2)

abbrev pub stays : Traversal → Error → Scan
stays s e = record { state = s; processed = []; finish = failed e }

abbrev pub resumed : List UnboundCandidate → Scan → Scan
resumed cs r = record r { processed = cs ++ r.processed }

-- Behind the batches of a page: the end of the traversal at a short page.
abbrev pub page_end : Traversal → Bool → Batch → (Traversal → Scan) → Scan
page_end s short (cursor, done, some e) next = record {
  state = record s { cursor = cursor };
  processed = done;
  finish = failed e;
}
page_end s short (cursor, done, none) next =
    if short
    then record { state = new_traversal; processed = done; finish = complete }
    else resumed done (next (record s { cursor = cursor }))

unfoldable pub read_page : PageEnv → Traversal → ℕ → Result (List UnboundCandidate)
read_page env s size = checked_late env.ended_late (
    list_unbound_candidates s.scan_now s.cutoff (cursor_of s.cursor) size env.fault env.instances
      env.tasks)

module _ (unmarshal : Snapshot → Option FrozenBudget) (period : Time) where
  unfoldable pub settle_next : BatchEnv → Option UnboundCandidate → List UnboundCandidate → Batch
  unfolding valid_result
  settle_next env cursor batch =
      if env.ended
      then no_progress cursor (driver expired)
      else let x = settle_batch unmarshal period env.settle batch env.tasks in
        if valid_result (length batch) x
        then batch_end cursor batch x
        else no_progress cursor invalid_facts

  -- The loop over the batches of a page; the fuel is the length of the page.
  unfoldable pub settle_page :
      (ℕ → BatchEnv) → ℕ → ℕ → List UnboundCandidate → Option UnboundCandidate → Batch
  unfolding settle_next
  settle_page envs k fuel [] cursor = (cursor, [], none)
  settle_page envs k zero (c ∷ cs) cursor = no_progress cursor invalid_facts
  settle_page envs k (suc fuel) (c ∷ cs) cursor =
      then_rest (settle_next (envs k) cursor (take max_batch_size (c ∷ cs)))
        (settle_page envs (k + 1) fuel (skip_rows max_batch_size (c ∷ cs)))

  unfoldable pub scan_page : PageEnv → ℕ → Traversal → (Traversal → Scan) → Scan
  unfolding valid_unbound_page settle_page
  scan_page env size s next =
      if env.ended then stays s (driver expired) else elim (read_page env s size) [
        | err e ↦ stays s e
        | ok page ↦
            if not (valid_unbound_page page s size)
            then stays s invalid_facts
            else page_end s (ltb (length page) size)
                (settle_page env.batches 0 (length page) page s.cursor) next
      ]

  unfoldable pub scan_pages : ℕ → List PageEnv → Traversal → Scan
  scan_pages size [] s = record { state = s; processed = []; finish = goes_on }
  scan_pages size (env ∷ envs) s = scan_page env size s (scan_pages size envs)

  -- The whole of `scan`: the time of a traversal is read once. `ended` is the run's Context at its start.
  unfoldable pub scan : Bool → Result Time → ℕ → List PageEnv → Traversal → Scan
  scan ended clock size envs s =
      if ended
      then stays s (driver expired)
      else if not (is_zero s.scan_now)
      then scan_pages size envs s
      else elim clock [
        | err e ↦ stays s e
        | ok now ↦
            if is_zero now || is_zero (now - period)
            then stays s invalid_facts
            else scan_pages size envs (record s { scan_now = now; cutoff = now - period })
      ]
