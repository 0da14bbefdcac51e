-- ===== src/StopRecovery.antt =====
-- apps/job/internal/instancestop/recovery.go: the scan that hands the IDs of stopping Instances to the
-- queue of stops. What a query meets (a failure, the end of a Context, the rows of that moment) and
-- what the queue answers to a hint are the environment's, anew at each query and each hint.
pub mod Scanned
pub mod Forward
pub mod Covers
pub mod Terms
pub mod Ends
pub mod Live
use dogx.Common.{
  ℕ, zero, suc, ◌+◌, ◌-◌, ◌==◌, leb, ltb, if◌then◌else◌, ◌&&◌, not, Bool, true, false, Option, List,
  [], ◌∷◌, ◌++◌, last_or,
}
use dogx.Model.Instance.{JobInstance}
use dogx.Database.{Fault, expired, Error, driver, invalid_facts, Result, ok, err}
use dogx.InstanceStore.Listings.{stopping_upper_id, list_stopping_candidates}
use dogx.Stop.Batch.{valid_ordered_ids}

-- One query: whether its Context has ended before and after it, its failure, and the table it reads.
pub record SqlCall : Type 0 where
  pub ended : Bool
  pub ended_late : Bool
  pub fault : Option Fault
  pub rows : List JobInstance

abbrev pub checked_late : {A : Type 0} → Bool → Result A → Result A
checked_late late (err e) = err e
checked_late late (ok a) = if late then err (driver expired) else ok a

-- sqlCall of controller.go
abbrev pub sql_call :
    {A : Type 0} → SqlCall → (Option Fault → List JobInstance → Result A) → Result A
sql_call c query =
    if c.ended then err (driver expired) else checked_late c.ended_late (query c.fault c.rows)

-- What a pass meets: the query of the upper bound, that of each page, and for each ID of each page
-- the end of the Context and the answer of the queue.
pub record ScanEnv : Type 0 where
  pub bound : SqlCall
  pub pages : ℕ → SqlCall
  pub ended : ℕ → ℕ → Bool
  pub hint : ℕ → ℕ → Bool

pub record StoppingPosition : Type 0 where
  pub upper : ℕ
  pub after : ℕ

abbrev pub start_position : StoppingPosition
start_position = record { upper = 0; after = 0 }

-- How a pass ends. The code returns nil for the first three, and no pass runs out of fuel.
pub data Finish : Type 0 where
  complete none_stopping refused : Finish
  failed : Error → Finish
  no_fuel : Finish

-- The position a pass leaves, and the IDs whose hints were accepted.
pub record Pass : Type 0 where
  pub position : StoppingPosition
  pub hinted : List ℕ
  pub finish : Finish

pub data Admission : Type 0 where
  all_admitted hint_refused context_ended : Admission

-- The loop over one page: the last accepted ID, the accepted IDs, and why it ended.
unfoldable pub admit : (ℕ → Bool) → (ℕ → Bool) → ℕ → List ℕ → ℕ → ℕ × List ℕ × Admission
admit ended hint n [] after = (after, [], all_admitted)
admit ended hint n (id ∷ ids) after =
    let rest = admit ended hint (n + 1) ids id in
    if ended n
    then (after, [], context_ended)
    else if not (hint n)
    then (after, [], hint_refused)
    else (rest.0, id ∷ rest.1, rest.2)

unfoldable pub valid_page : ℕ → StoppingPosition → List ℕ → Bool
valid_page size p [] = valid_ordered_ids [] size
valid_page size p (id ∷ ids) =
    valid_ordered_ids (id ∷ ids) size && ltb p.after id && leb (last_or id ids) p.upper

abbrev pub resumed : List ℕ → Pass → Pass
resumed ids r = record r { hinted = ids ++ r.hinted }

-- What follows the loop over one page; `next` is the loop over pages from there.
abbrev pub after_admit :
    StoppingPosition → ℕ × List ℕ × Admission → (StoppingPosition → Pass) → Pass
after_admit p (after, ids, context_ended) next = record {
  position = record p { after = after };
  hinted = ids;
  finish = failed (driver expired);
}
after_admit p (after, ids, hint_refused) next = record {
  position = record p { after = after };
  hinted = ids;
  finish = refused;
}
after_admit p (after, ids, all_admitted) next =
    if after == p.upper
    then record { position = start_position; hinted = ids; finish = complete }
    else resumed ids (next (record p { after = after }))

unfoldable pub scan_page : ScanEnv → ℕ → ℕ → StoppingPosition → (StoppingPosition → Pass) → Pass
scan_page env size k p next =
    elim (sql_call (env.pages k) (list_stopping_candidates p.after p.upper size)) [
      | err e ↦ record { position = p; hinted = []; finish = failed e }
      | ok ids ↦
          if not (valid_page size p ids)
          then record { position = p; hinted = []; finish = failed invalid_facts }
          else elim ids [
            | [] ↦ record { position = start_position; hinted = []; finish = complete }
            | id ∷ rest ↦
                after_admit p (admit (env.ended k) (env.hint k) 0 (id ∷ rest) p.after) next
          ]
    ]

unfoldable pub scan_pages : ScanEnv → ℕ → ℕ → ℕ → StoppingPosition → Pass
scan_pages env size zero k p = record { position = p; hinted = []; finish = no_fuel }
scan_pages env size (suc fuel) k p = scan_page env size k p (scan_pages env size fuel (k + 1))

-- One page for each ID above the position, and one more.
unfoldable pub scan_from : ScanEnv → ℕ → StoppingPosition → Pass
scan_from env size p = scan_pages env size (suc (p.upper - p.after)) 0 p

unfoldable pub scan : ScanEnv → ℕ → StoppingPosition → Pass
scan env size p =
    if not (p.upper == 0)
    then scan_from env size p
    else elim (sql_call env.bound stopping_upper_id) [
      | err e ↦ record { position = p; hinted = []; finish = failed e }
      | ok upper ↦
          if upper == 0
          then record { position = p; hinted = []; finish = none_stopping }
          else scan_from env size (record p { upper = upper })
    ]

-- Run: the passes of one term, each on a tick; the accepted hints of all, and how each pass ended.
unfoldable pub run : ℕ → List ScanEnv → StoppingPosition → StoppingPosition × List ℕ × List Finish
run size [] p = (p, [], [])
run size (env ∷ envs) p =
    let r = scan env size p in
    let rest = run size envs r.position in (rest.0, r.hinted ++ rest.1, r.finish ∷ rest.2)
