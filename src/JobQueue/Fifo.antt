-- ===== src/JobQueue/Fifo.antt =====
-- What the queue of scheduler/queue.go promises, without the ring buffer and the map: the waiting IDs
-- in their order, and for each ID in processing whether a hint has come for it since.
use dogx.Common.{
  ℕ, ◌+◌, ◌-◌, ◌≡◌, ◌==◌, if◌then◌else◌, Bool, true, false, Option, none, some, List, [], ◌∷◌, ◌++◌,
}
use dogx.Database.{elem}

pub record Fifo : Type 0 where
  pub capacity : ℕ
  pub waiting : List ℕ
  pub busy : ℕ → Option Bool
  pub load : ℕ
  pub closed : Bool

-- The path between two of them, field by field.
pub Fifo-ext :
    (s t : Fifo)
    → s.capacity ≡ t.capacity
    → s.waiting ≡ t.waiting
    → ((id : ℕ) → s.busy id ≡ t.busy id)
    → s.load ≡ t.load
    → s.closed ≡ t.closed
    → s ≡ t
Fifo-ext s t c w b l e =
    λ i. record { capacity = c i; waiting = w i; busy = λ id. b id i; load = l i; closed = e i }

abbrev pub with_busy : ℕ → Option Bool → (ℕ → Option Bool) → ℕ → Option Bool
with_busy id b busy j = if id == j then b else busy j

unfoldable pub new_fifo : ℕ → Fifo
new_fifo capacity = record {
  capacity = capacity;
  waiting = [];
  busy = λ _. none;
  load = 0;
  closed = false;
}

unfoldable pub offer : ℕ → Fifo → Fifo × Bool
offer id s = if s.closed then (s, false) else elim (s.busy id) [
  | some _ ↦ (record s { busy = with_busy id (some true) s.busy }, true)
  | none ↦
      if elem id s.waiting
      then (s, true)
      else if s.load == s.capacity
      then (s, false)
      else (record s { waiting = s.waiting ++ id ∷ []; load = s.load + 1 }, true)
]

pub data Taken : Type 0 where
  waits stopped : Taken
  takes : ℕ → Fifo → Taken

unfoldable pub take : Fifo → Taken
take s = if s.closed then stopped else elim s.waiting [
  | [] ↦ waits
  | id ∷ rest ↦ takes id (record s { waiting = rest; busy = with_busy id (some false) s.busy })
]

-- The end of the processing of an ID.
unfoldable pub complete : ℕ → Fifo → Fifo
complete id s = if s.closed then s else elim (s.busy id) [
  | some true ↦ record s { waiting = s.waiting ++ id ∷ []; busy = with_busy id none s.busy }
  | _ ↦ record s { busy = with_busy id none s.busy; load = s.load - 1 }
]

unfoldable pub close : Fifo → Fifo
close s = record s { closed = true; waiting = []; busy = λ _. none; load = 0 }
