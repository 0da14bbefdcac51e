-- ===== src/CheckQueue/Takes.antt =====
-- instancecheck/queue.go: which entry a worker takes.
use dogx.Common.{
  ℕ, ◌≤◌, ◌<◌, ◌≡◌, refl, subst, ◌==◌, leb, ltb, true, false, ◌&&◌, ◌||◌, Option, none, some, List,
  [], ◌∷◌, ◌++◌, length, All, ◌⊎◌, inl, inr, arith, Bool-cases,
}
use dogx.Model.{Time}
use dogx.CheckQueue.{
  CheckEntry, CheckQueue, Taken, exits, waits, takes, Search, none_due, found, kept, due_of,
  earlier, search, started_check, take,
}

-- A sleep until `t` ends no later than the due times of the IDs and than `limit`; without an end it
-- has neither.
abbrev pub WakesBy : List (ℕ × CheckEntry) → Option Time → Option Time → List ℕ → Type 0
WakesBy entries limit none ids = (limit ≡ none) × (ids ≡ [])
WakesBy entries none (some t) ids = All (λ id. t ≤ due_of entries id) ids
WakesBy entries (some l) (some t) ids = (t ≤ l) × All (λ id. t ≤ due_of entries id) ids

module _ (now : Time) (entries : List (ℕ × CheckEntry)) where
  abbrev NotDue : ℕ → Type 0
  NotDue id = now < due_of entries id

  -- The first due ID with those before and behind it, or the earliest time of the rest.
  pub data SearchOf (ids : List ℕ) : Search → Type 0 where
    nothing : (t : Option Time) → All NotDue ids → SearchOf ids (none_due t)
    first :
        (earlier : List ℕ) (id : ℕ) (later : List ℕ)
        → ids ≡ earlier ++ id ∷ later
        → All NotDue earlier
        → due_of entries id ≤ now
        → SearchOf ids (found id (earlier ++ later))

  kept-SearchOf :
      (id : ℕ) (ids : List ℕ) (r : Search)
      → now < due_of entries id
      → SearchOf ids r
      → SearchOf (id ∷ ids) (kept id r)
  kept-SearchOf id ids _ h (nothing t a) = nothing t (h, a)
  kept-SearchOf id ids _ h (first earlier j later e a d) =
      first (id ∷ earlier) j later (ground (arith, e)) (h, a) d

  pub search-SearchOf :
      (ids : List ℕ) (earliest : Option Time) → SearchOf ids (search now entries ids earliest)
  unfolding search
  search-SearchOf [] earliest = nothing earliest tt
  search-SearchOf (id ∷ ids) earliest = elim (Bool-cases (leb (due_of entries id) now)) [
    | inl e ↦ rw e (first [] id ids refl tt (ground arith))
    | inr e ↦ rw e (
        kept-SearchOf id ids _ (ground arith)
          (search-SearchOf ids (earlier earliest (due_of entries id))))
  ]

not_kept : (id : ℕ) (r : Search) (t : Option Time) → kept id r ≡ none_due t → r ≡ none_due t
not_kept id (none_due s) t h = h
not_kept id (found j rest) t h = cc

wakes_earlier :
    (entries : List (ℕ × CheckEntry)) (id : ℕ) (ids : List ℕ) (limit t : Option Time)
    → WakesBy entries (earlier limit (due_of entries id)) t ids
    → WakesBy entries limit t (id ∷ ids)
wakes_earlier entries id ids none none h = cc
wakes_earlier entries id ids (some l) none h = elim (Bool-cases (ltb (due_of entries id) l)) [
  | inl e ↦
      let k : WakesBy entries (some (due_of entries id)) none ids = rw e at h in
      absurd (let n = k.0 in cc)
  | inr e ↦ let k : WakesBy entries (some l) none ids = rw e at h in absurd (let n = k.0 in cc)
]
wakes_earlier entries id ids none (some t) h = h
wakes_earlier entries id ids (some l) (some t) h = elim (Bool-cases (ltb (due_of entries id) l)) [
  | inl e ↦
      let k : WakesBy entries (some (due_of entries id)) (some t) ids = rw e at h in
      (let n = k.0 in ground arith, (k.0, k.1))
  | inr e ↦
      let k : WakesBy entries (some l) (some t) ids = rw e at h in
      (k.0, (let n = k.0 in ground arith, k.1))
]

search-WakesBy :
    (now : Time) (entries : List (ℕ × CheckEntry)) (ids : List ℕ) (limit t : Option Time)
    → search now entries ids limit ≡ none_due t
    → WakesBy entries limit t ids
unfolding search
search-WakesBy now entries [] none none h = (refl, refl)
search-WakesBy now entries [] none (some t) h = tt
search-WakesBy now entries [] (some l) none h = cc
search-WakesBy now entries [] (some l) (some t) h = (ground arith, tt)
search-WakesBy now entries (id ∷ ids) limit t h =
    let d = due_of entries id in
    let ih = search-WakesBy now entries ids (earlier limit d) t (not_kept id _ t (ground arith)) in
    wakes_earlier entries id ids limit t ih

-- What `take` answers.
pub data TakeOf (now : Time) (q : CheckQueue) : Taken → Type 0 where
  of_end :
      (q.cancelled ≡ true) ⊎ ((q.stopping ≡ true) × (length q.entries ≡ 0)) → TakeOf now q exits
  of_none :
      (t : Option Time)
      → q.cancelled ≡ false
      → All (λ id. now < due_of q.entries id) q.pending
      → WakesBy q.entries none t q.pending
      → TakeOf now q (waits t)
  of_first :
      (earlier : List ℕ) (id : ℕ) (later : List ℕ)
      → q.cancelled ≡ false
      → q.pending ≡ earlier ++ id ∷ later
      → All (λ j. now < due_of q.entries j) earlier
      → due_of q.entries id ≤ now
      → TakeOf now q
          (takes id (record q { pending = earlier ++ later; entries = started_check q.entries id }))

searched-TakeOf :
    (now : Time) (q : CheckQueue) (r : Search)
    → (q.cancelled || q.stopping && length q.entries == 0) ≡ false
    → search now q.entries q.pending none ≡ r
    → SearchOf now q.entries q.pending r
    → TakeOf now q (take now q)
unfolding take
searched-TakeOf now q _ c e (nothing t a) =
    subst (TakeOf now q) (ground arith)
      (of_none t (ground arith) a (search-WakesBy now q.entries q.pending none t e))
searched-TakeOf now q _ c e (first earlier id later p a d) =
    subst (TakeOf now q) (ground arith) (of_first earlier id later (ground arith) p a d)

-- In any state `take` ends a worker only in a cancelled queue or in a stopped one that retains nothing;
-- otherwise it hands out the first pending Instance that is due, marks its entry as processed and
-- keeps the others in their order, those before it not being due; or none is due, and the worker
-- sleeps no longer than to the earliest due time, and without an end only where none is pending.
pub take_first_due : (now : Time) (q : CheckQueue) → TakeOf now q (take now q)
unfolding take
take_first_due now q = elim (Bool-cases (q.cancelled || q.stopping && length q.entries == 0)) [
  | inl e ↦ subst (TakeOf now q) (ground arith) (of_end (ground arith))
  | inr e ↦ searched-TakeOf now q _ e refl (search-SearchOf now q.entries q.pending none)
]
