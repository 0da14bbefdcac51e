-- ===== src/CheckRecovery/Climbs.antt =====
-- instancecheck/recovery.go: the scan moves forward through the start times.
use dogx.Common.{
  ℕ, ◌+◌, ◌≡◌, refl, subst, true, false, Option, none, some, List, [], ◌∷◌, ◌⊎◌, inl, inr, arith,
  Bool-cases, Option-cases,
}
use dogx.Common.Chains.{chained, chained-append, last_of, last_of-append}
use dogx.Model.{Time, is_zero}
use dogx.Database.{Error, invalid_facts, ok}
use dogx.Database.Updates.{Result-cases}
use dogx.InstanceStore.Listings.{RunningCandidate, list_running_candidates}
use dogx.StopRecovery.{sql_call}
use dogx.CheckRecovery.{
  RunningPosition, start_position, PageEnv, complete, Pass, follows, valid_running_candidates,
  hand_over, handed, stays, scan_page, bounded, scan_round, scan,
}

-- The accepted candidates climb from the cursor on, all valid under one bound, which is the
-- position's unless it had none; the next position is the start of a new traversal, or has this
-- bound and the last accepted candidate.
pub record IsClimbing (p : RunningPosition) (r : Pass) : Type 0 where
  pub bound : Time
  pub same : (p.eligible_before ≡ 0) ⊎ (p.eligible_before ≡ bound)
  pub climbs : chained (follows bound) p.after r.hinted ≡ true
  pub resumes :
      ((r.finish ≡ complete) × (r.position ≡ start_position))
      ⊎ (r.position ≡ record { eligible_before = bound; after = last_of p.after r.hinted })

hand_over-chained :
    (hint : ℕ → Option Error) (n : ℕ) (b : Time) (cs : List RunningCandidate)
    (a : Option RunningCandidate)
    → chained (follows b) a cs ≡ true
    → (chained (follows b) a (hand_over hint n cs a).1 ≡ true)
      × ((hand_over hint n cs a).0 ≡ last_of a (hand_over hint n cs a).1)
unfolding hand_over chained
hand_over-chained hint n b [] a h = (refl, refl)
hand_over-chained hint n b (c ∷ cs) a h =
    let r = hand_over-chained hint (n + 1) b cs (some c) (ground arith) in
    elim (Option-cases (hint n)) [
      | inl e ↦ (ground (arith, r), ground (arith, r))
      | inr (f, e) ↦ (ground arith, ground arith)
    ]

stays-IsClimbing : (p : RunningPosition) (e : Error) → IsClimbing p (stays p e)
unfolding chained
stays-IsClimbing p e = record {
  bound = p.eligible_before;
  same = inr refl;
  climbs = refl;
  resumes = inr refl;
}

-- With a bound that is set, the loop from a page on.
handed-IsClimbing :
    (p : RunningPosition) (next : RunningPosition → Pass)
    (r : Option RunningCandidate × List RunningCandidate × Option Error)
    → is_zero p.eligible_before ≡ false
    → ((q : RunningPosition) → IsClimbing q (next q))
    → chained (follows p.eligible_before) p.after r.1 ≡ true
    → r.0 ≡ last_of p.after r.1
    → IsClimbing p (handed p r next)
handed-IsClimbing p next (after, cs, some e) z ih c l = record {
  bound = p.eligible_before;
  same = inr refl;
  climbs = c;
  resumes = inr (ground (arith, l));
}
handed-IsClimbing p next (after, cs, none) z ih c l =
    let q : RunningPosition = record p { after = after } in
    let f = ih q in
    let b : f.bound ≡ p.eligible_before = let s = f.same in ground arith in
    record {
      bound = p.eligible_before;
      same = inr refl;
      climbs = chained-append (follows p.eligible_before) p.after cs (next q).hinted c (
          subst (λ a. chained (follows p.eligible_before) a (next q).hinted ≡ true) l
            (subst (λ t. chained (follows t) after (next q).hinted ≡ true) b f.climbs));
      resumes = elim f.resumes [
        | inl h ↦ inl h
        | inr h ↦ inr (ground (arith, h, b, l, last_of-append p.after cs (next q).hinted))
      ];
    }

module _ (env : PageEnv) (size : ℕ) (p : RunningPosition) (next : RunningPosition → Pass)
    (ih : (q : RunningPosition) → IsClimbing q (next q)) where
  valid-IsClimbing :
      (cs : List RunningCandidate)
      → valid_running_candidates cs p size ≡ true
      → sql_call env.query (list_running_candidates p.eligible_before p.after size) ≡ ok cs
      → IsClimbing p (scan_page env size p next)
  unfolding scan_page valid_running_candidates chained follows
  valid-IsClimbing [] v q =
      let d : IsClimbing p (record { position = start_position; hinted = []; finish = complete }) =
        record {
          bound = p.eligible_before;
          same = inr refl;
          climbs = refl;
          resumes = inl (refl, refl);
        } in
      subst (IsClimbing p) (ground arith) d
  valid-IsClimbing (c ∷ cs) v q =
      let h = hand_over-chained env.hint 0 p.eligible_before (c ∷ cs) p.after (ground arith) in
      subst (IsClimbing p) (ground arith)
        (handed-IsClimbing p next (hand_over env.hint 0 (c ∷ cs) p.after) (ground arith) ih h.0 h.1)

  scan_page-IsClimbing : IsClimbing p (scan_page env size p next)
  unfolding scan_page
  scan_page-IsClimbing =
      elim (Result-cases
        (sql_call env.query (list_running_candidates p.eligible_before p.after size))) [
          | inr (e, q) ↦ subst (IsClimbing p) (ground arith) (stays-IsClimbing p e)
          | inl (cs, q) ↦ elim (Bool-cases (valid_running_candidates cs p size)) [
            | inr v ↦ subst (IsClimbing p) (ground arith) (stays-IsClimbing p invalid_facts)
            | inl v ↦ valid-IsClimbing cs v q
          ]
        ]

widen :
    (p q : RunningPosition) (r : Pass)
    → q.after ≡ p.after
    → (p.eligible_before ≡ 0) ⊎ (p.eligible_before ≡ q.eligible_before)
    → IsClimbing q r
    → IsClimbing p r
widen p q r a s i = record {
  bound = i.bound;
  same = let k = i.same in ground arith;
  climbs = subst (λ c. chained (follows i.bound) c r.hinted ≡ true) a i.climbs;
  resumes =
      subst
        (λ c.
          ((r.finish ≡ complete) × (r.position ≡ start_position))
          ⊎ (r.position ≡ record { eligible_before = i.bound; after = last_of c r.hinted }))
        a i.resumes;
}

bounded-keeps :
    (min_age : Time) (env : PageEnv) (p q : RunningPosition)
    → bounded min_age env p ≡ ok q
    → (q.after ≡ p.after) × ((p.eligible_before ≡ 0) ⊎ (p.eligible_before ≡ q.eligible_before))
unfolding bounded
bounded-keeps min_age env p q h = elim (Bool-cases (is_zero p.eligible_before)) [
  | inr z ↦ (ground arith, inr (ground arith))
  | inl z ↦ elim (Result-cases env.clock) [
    | inr (e, c) ↦ absurd (ground arith)
    | inl (now, c) ↦ elim (Bool-cases (is_zero now)) [
      | inl n ↦ absurd (ground arith)
      | inr n ↦ (ground arith, inl (ground arith))
    ]
  ]
]

scan_round-IsClimbing :
    (min_age : Time) (env : PageEnv) (size : ℕ) (p : RunningPosition)
    (next : RunningPosition → Pass)
    → ((q : RunningPosition) → IsClimbing q (next q))
    → IsClimbing p (scan_round min_age env size p next)
unfolding scan_round
scan_round-IsClimbing min_age env size p next ih = elim (Option-cases env.capacity) [
  | inr (e, c) ↦ subst (IsClimbing p) (ground arith) (stays-IsClimbing p e)
  | inl c ↦ elim (Result-cases (bounded min_age env p)) [
    | inr (e, b) ↦ subst (IsClimbing p) (ground arith) (stays-IsClimbing p e)
    | inl (q, b) ↦
        let k = bounded-keeps min_age env p q b in
        subst (IsClimbing p) (ground arith)
          (widen p q _ k.0 k.1 (scan_page-IsClimbing env size q next ih))
  ]
]

-- Whatever the waits, the clock, the queries and the hints answer, the candidates that one pass hands
-- over from any position have positive IDs and start times below one bound, in strictly ascending
-- order of start time and ID behind the cursor; the bound is the position's, unless it had none; and
-- the position that the pass leaves is the start of a new traversal, with the old one complete, or
-- this bound with the last accepted candidate as its cursor, so that the first one that was not
-- accepted is next.
pub scan-IsClimbing :
    (min_age : Time) (size : ℕ) (envs : List PageEnv) (p : RunningPosition)
    → IsClimbing p (scan min_age size envs p)
unfolding scan chained
scan-IsClimbing min_age size [] p = record {
  bound = p.eligible_before;
  same = inr refl;
  climbs = refl;
  resumes = inr refl;
}
scan-IsClimbing min_age size (env ∷ envs) p =
    scan_round-IsClimbing min_age env size p (scan min_age size envs)
      (scan-IsClimbing min_age size envs)
