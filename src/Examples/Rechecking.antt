-- ===== src/Examples/Rechecking.antt =====
-- The check queue at concrete inputs: Instance 7 is hinted, taken when its window has passed, and
-- hinted again while it is checked.
use dogx.Common.{
  ℕ, ◌+◌, ◌≤◌, ◌≡◌, refl, true, false, none, some, List, [], ◌∷◌, ◌++◌, ◌⊎◌, length, count, remove,
  arith, if◌then◌else◌, is_some,
}
use dogx.Common.Assoc.{lookup, assign, erase}
use dogx.CheckQueue.{
  CheckEntry, CheckQueue, merge_window, new_queue, start, hint, merge_entry, add_entry, takes, take,
  search, stop, complete, finish, wait_recovery, admit_new, half,
}
use dogx.CheckQueue.Steps.{
  System, Reach, initial, next, starts, hints, takes_one, completes, stops, leaves,
}
use dogx.CheckQueue.Takes.{TakeOf, take_first_due}
use dogx.CheckQueue.Windows.{one_check, hint_rechecked, follow_up, room_kept, all_checked}

abbrev queue_of : List (ℕ × CheckEntry) → List ℕ → CheckQueue
queue_of entries pending = record (new_queue 2) {
  started = true;
  entries = entries;
  pending = pending;
}

abbrev waiting_entry : CheckEntry
waiting_entry = record { due = 5 + merge_window; processing = false; next_due = 0 }

abbrev waiting : CheckQueue
waiting = queue_of ((7, waiting_entry) ∷ []) (7 ∷ [])

abbrev being_checked : CheckQueue
being_checked = queue_of ((7, record waiting_entry { processing = true }) ∷ []) []

abbrev checking : System
checking = record { queue = being_checked; busy = 7 ∷ []; left = 0 }

start-queue : start (new_queue 2) ≡ some (queue_of [] [])
unfolding start new_queue
start-queue = refl

hint-queue : (hint 5 7 (queue_of [] [])).0 ≡ waiting
unfolding hint new_queue merge_entry add_entry lookup
hint-queue = refl

take-queue : take (5 + merge_window) (hint 5 7 (queue_of [] [])).0 ≡ takes 7 being_checked
unfolding take search hint new_queue merge_entry add_entry lookup assign
take-queue = refl

checking-Reach : Reach 2 1 checking
unfolding hint merge_entry add_entry new_queue lookup
checking-Reach =
    next (next (next initial (starts (queue_of [] []) start-queue)) (hints 5 7))
      (takes_one (5 + merge_window) 7 being_checked refl (omega arith) take-queue)

abbrev ended : System
ended = record { queue = stop (complete 7 true being_checked); busy = remove 7 (7 ∷ []); left = 1 }

ended-Reach : Reach 2 1 ended
unfolding complete erase lookup take stop new_queue
ended-Reach =
    next (next (next checking-Reach (completes 7 true (omega arith))) stops)
      (leaves 9 refl (omega arith) refl)

one_check_example :
    (count 7 checking.queue.pending + count 7 checking.busy
      ≡ (if is_some (lookup 7 checking.queue.entries) then 1 else 0))
    × (length checking.queue.entries ≤ 2)
one_check_example = one_check checking 7 (omega arith) (omega arith) checking-Reach

hint_rechecked_example :
    (e : CheckEntry) × (lookup 7 checking.queue.entries ≡ some e)
    × ((complete 7 false (hint 9 7 checking.queue).0).pending ≡ checking.queue.pending ++ 7 ∷ [])
    × (lookup 7 (complete 7 false (hint 9 7 checking.queue).0).entries
        ≡ some (record { due = follow_up 9 e; processing = false; next_due = 0 }))
unfolding hint merge_entry lookup new_queue
hint_rechecked_example =
    hint_rechecked checking 9 7 (omega arith) (omega arith) checking-Reach (omega arith) refl refl

take_first_due_example : TakeOf 9 waiting (take 9 waiting)
take_first_due_example = take_first_due 9 waiting

room_kept_example :
    (length (add_entry 9 8 (queue_of [] [])).entries ≡ length (queue_of [] []).entries)
    ⊎ ((length (add_entry 9 8 (queue_of [] [])).entries ≡ length (queue_of [] []).entries + 1)
        × (length (add_entry 9 8 (queue_of [] [])).entries ≤ half (queue_of [] []).capacity))
unfolding wait_recovery merge_entry admit_new add_entry lookup new_queue
room_kept_example = room_kept (queue_of [] []) (add_entry 9 8 (queue_of [] [])) false 9 8 refl

all_checked_example : (length ended.queue.entries ≡ 0) × ((finish ended.queue).drain_error ≡ none)
unfolding stop complete erase lookup new_queue
all_checked_example = all_checked ended (omega arith) (omega arith) ended-Reach refl refl
