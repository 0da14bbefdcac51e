-- ===== src/Examples/Recovering.antt =====
-- The recovery of stops at concrete inputs: three stopping rounds in pages of two, over two passes.
use dogx.Common.{◌≡◌, ◌≢◌, ◌⊎◌, refl, true, false, none, List, [], ◌∷◌, ◌==◌, arith}
use dogx.Model.Instance.{JobInstance}
use dogx.Database.{elem}
use dogx.StopRecovery.{SqlCall, ScanEnv, start_position, no_fuel, scan, scan_from, run}
use dogx.StopRecovery.Covers.{Ahead, stops_in}
use dogx.StopRecovery.Terms.{completes, run-hinted}
use dogx.StopRecovery.Forward.{IsForward, scan_from-IsForward}
use dogx.StopRecovery.Ends.{scan-fuel}
use dogx.StopRecovery.Live.{Answering, scan-hints}
use dogx.Examples.Stopping.{stopped_instance}

abbrev stopping_rows : List JobInstance
stopping_rows =
    record stopped_instance { id = 9 } ∷ stopped_instance ∷ record stopped_instance { id = 6 } ∷ []

abbrev answered : SqlCall
answered = record { ended = false; ended_late = false; fault = none; rows = stopping_rows }

-- A queue that refuses the second hint of the first page, and one with room.
abbrev full_queue : ScanEnv
full_queue = record {
  bound = answered;
  pages = λ _. answered;
  ended = λ _ _. false;
  hint = λ _ n. n == 0;
}

abbrev with_room : ScanEnv
with_room = record full_queue { hint = λ _ _. true }

stops_always : stops_in 6 stopping_rows ≡ true
unfolding stops_in
stops_always = refl

scan_from-IsForward_example :
    IsForward
      (record { upper = 9; after = 4 })
      (scan_from full_queue 2 (record { upper = 9; after = 4 }))
scan_from-IsForward_example = scan_from-IsForward full_queue 2 (record { upper = 9; after = 4 })

run-hinted_example :
    (elem 6 (run 2 (full_queue ∷ with_room ∷ []) start_position).1 ≡ true)
    ⊎ ((completes (run 2 (full_queue ∷ with_room ∷ []) start_position).2 ≡ false)
        × Ahead 6 (run 2 (full_queue ∷ with_room ∷ []) start_position).0)
run-hinted_example =
    run-hinted 6 2 (full_queue ∷ with_room ∷ []) (omega arith)
      ((stops_always, λ k. stops_always), ((stops_always, λ k. stops_always), tt))

scan-fuel_example : (scan full_queue 2 start_position).finish ≢ no_fuel
scan-fuel_example = scan-fuel full_queue 2 start_position

answered-Answering : Answering answered
answered-Answering = record { early = refl; in_time = refl; sound = refl; distinct = ground arith }

scan-hints_example : elem 6 (scan with_room 2 start_position).hinted ≡ true
scan-hints_example =
    scan-hints 6 2 with_room (omega arith) (omega arith)
      (record {
        bound = answered-Answering;
        pages = λ k. answered-Answering;
        running = λ k n. refl;
        room = λ k n. refl;
      })
      (stops_always, λ k. stops_always)
