-- ===== src/CheckRecovery.antt =====
-- apps/job/internal/instancecheck/recovery.go: the scan that hands running Instances to the check queue.
-- A pass meets one environment per page: the answer of the wait for capacity, of the clock, of the
-- query and of each hint. A pass is over when it ends or, at the latest, with the pages it is given.
pub mod Climbs
use dogx.Common.{
  ℕ, zero, suc, ◌+◌, ◌-◌, ◌==◌, leb, ltb, if◌then◌else◌, ◌&&◌, ◌||◌, not, Bool, true, false, Option,
  none, some, List, [], ◌∷◌, ◌++◌, length,
}
use dogx.Common.Chains.{chained}
use dogx.Common.Keyset.{before}
use dogx.Model.{Time, is_zero}
use dogx.Database.{Error, invalid_facts, Result, ok, err}
use dogx.InstanceStore.Listings.{RunningCandidate, running_key, list_running_candidates}
use dogx.StopRecovery.{SqlCall, sql_call}

pub record RunningPosition : Type 0 where
  pub eligible_before : Time
  pub after : Option RunningCandidate

abbrev pub start_position : RunningPosition
start_position = record { eligible_before = 0; after = none }

-- `capacity` is the error of WaitRecoveryCapacity, `hint` that of each HintRecovery.
pub record PageEnv : Type 0 where
  pub capacity : Option Error
  pub clock : Result Time
  pub query : SqlCall
  pub hint : ℕ → Option Error

-- How a pass ends: with the traversal, with an error, or not within its pages.
pub data Finish : Type 0 where
  complete goes_on : Finish
  failed : Error → Finish

pub record Pass : Type 0 where
  pub position : RunningPosition
  pub hinted : List RunningCandidate
  pub finish : Finish

-- The test of one candidate against the one before it.
unfoldable pub follows : Time → Option RunningCandidate → RunningCandidate → Bool
follows bound previous c =
    not (c.id == 0 || is_zero c.started_at || not (ltb c.started_at bound))
    && elim previous [ none ↦ true | some p ↦ before (running_key p) (running_key c) ]

unfoldable pub valid_running_candidates : List RunningCandidate → RunningPosition → ℕ → Bool
unfolding follows chained
valid_running_candidates cs p limit =
    leb (length cs) limit && chained (follows p.eligible_before) p.after cs

-- The loop over one page: the last accepted candidate, the accepted ones, and the error that ended it.
unfoldable pub hand_over :
    (ℕ → Option Error)
    → ℕ
    → List RunningCandidate
    → Option RunningCandidate
    → Option RunningCandidate × List RunningCandidate × Option Error
hand_over hint n [] after = (after, [], none)
hand_over hint n (c ∷ cs) after =
    let rest = hand_over hint (n + 1) cs (some c) in
    elim (hint n) [ some e ↦ (after, [], some e) | none ↦ (rest.0, c ∷ rest.1, rest.2) ]

abbrev pub resumed : List RunningCandidate → Pass → Pass
resumed cs r = record r { hinted = cs ++ r.hinted }

abbrev pub handed :
    RunningPosition
    → Option RunningCandidate × List RunningCandidate × Option Error
    → (RunningPosition → Pass)
    → Pass
handed p (after, cs, some e) next = record {
  position = record p { after = after };
  hinted = cs;
  finish = failed e;
}
handed p (after, cs, none) next = resumed cs (next (record p { after = after }))

abbrev pub stays : RunningPosition → Error → Pass
stays p e = record { position = p; hinted = []; finish = failed e }

-- A round of the loop behind the choice of the bound; `next` is the loop from there.
unfoldable pub scan_page : PageEnv → ℕ → RunningPosition → (RunningPosition → Pass) → Pass
unfolding valid_running_candidates
scan_page env size p next =
    elim (sql_call env.query (list_running_candidates p.eligible_before p.after size)) [
      | err e ↦ stays p e
      | ok cs ↦
          if not (valid_running_candidates cs p size) then stays p invalid_facts else elim cs [
            | [] ↦ record { position = start_position; hinted = []; finish = complete }
            | c ∷ rest ↦ handed p (hand_over env.hint 0 (c ∷ rest) p.after) next
          ]
    ]

-- The bound of a traversal: MinAge before the database's time, read once.
unfoldable pub bounded : Time → PageEnv → RunningPosition → Result RunningPosition
bounded min_age env p = if not (is_zero p.eligible_before) then ok p else elim env.clock [
  | err e ↦ err e
  | ok now ↦
      if is_zero now then err invalid_facts else ok (record p { eligible_before = now - min_age })
]

unfoldable pub scan_round : Time → PageEnv → ℕ → RunningPosition → (RunningPosition → Pass) → Pass
scan_round min_age env size p next = elim env.capacity [
  | some e ↦ stays p e
  | none ↦ elim (bounded min_age env p) [ err e ↦ stays p e | ok q ↦ scan_page env size q next ]
]

unfoldable pub scan : Time → ℕ → List PageEnv → RunningPosition → Pass
scan min_age size [] p = record { position = p; hinted = []; finish = goes_on }
scan min_age size (env ∷ envs) p = scan_round min_age env size p (scan min_age size envs)

-- Run: the passes of one term, each on a tick.
unfoldable pub run :
    Time → ℕ → List (List PageEnv) → RunningPosition → RunningPosition × List RunningCandidate
run min_age size [] p = (p, [])
run min_age size (envs ∷ passes) p =
    let r = scan min_age size envs p in
    let rest = run min_age size passes r.position in (rest.0, r.hinted ++ rest.1)
