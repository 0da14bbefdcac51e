-- ===== src/StopRecovery/Scanned.antt =====
-- recovery.go: what one page of the scan comes to.
use dogx.Common.{
  ℕ, suc, ◌+◌, ◌≡◌, refl, sym, ap, ◌∙◌, subst, ◌==◌, ◌||◌, Bool, true, false, List, [], ◌∷◌, ◌⊎◌,
  inl, inr, map, select, take, last_or, arith, Bool-cases, ltb, Option-cases,
}
use dogx.Common.Sort.{order}
use dogx.Model.Instance.{is_stopping}
use dogx.Database.{Error, driver, expired, invalid_facts, invalid_argument, ok, err}
use dogx.Common.Keyset.{descending, first_or_zero}
use dogx.InstanceStore.Listings.{
  stopping_upper_id, is_stopping_between, instance_id, list_stopping_candidates,
}
use dogx.StopRecovery.{
  SqlCall, sql_call, ScanEnv, StoppingPosition, start_position, Finish, complete, refused, failed,
  Pass, Admission, all_admitted, hint_refused, context_ended, admit, valid_page, resumed,
  after_admit, scan_page, scan_from, scan, none_stopping,
}

-- The IDs that a page query finds, in their order, before its limit.
abbrev pub found : SqlCall → StoppingPosition → List ℕ
found c p = order (map instance_id (select (is_stopping_between p.after p.upper) c.rows))

abbrev pub is_stop : Finish → Bool
is_stop refused = true
is_stop (failed e) = true
is_stop _ = false

-- The accepted IDs are the first ones of the page.
pub record AdmitOf (ids : List ℕ) (after : ℕ) (r : ℕ × List ℕ × Admission) : Type 0 where
  pub at : ℕ
  pub taken : r.1 ≡ take at ids
  pub reached : r.0 ≡ last_or after r.1
  pub whole : r.2 ≡ all_admitted → r.1 ≡ ids

admit-AdmitOf :
    (ended hint : ℕ → Bool) (n : ℕ) (ids : List ℕ) (after : ℕ)
    → AdmitOf ids after (admit ended hint n ids after)
unfolding admit
admit-AdmitOf ended hint n [] after = record {
  at = 0;
  taken = refl;
  reached = refl;
  whole = λ e. refl;
}
admit-AdmitOf ended hint n (id ∷ ids) after =
    let rest = admit-AdmitOf ended hint (n + 1) ids id in
    elim (Bool-cases (ended n)) [
      | inl e ↦ rw e (record { at = 0; taken = refl; reached = refl; whole = λ q. cc })
      | inr e ↦ elim (Bool-cases (hint n)) [
        | inl h ↦
            rw (e, h)
              (record {
                at = suc rest.at;
                taken = let t = rest.taken in ground arith;
                reached = rest.reached;
                whole = λ q. let w = rest.whole q in ground arith;
              })
        | inr h ↦ rw (e, h) (record { at = 0; taken = refl; reached = refl; whole = λ q. cc })
      ]
    ]

module _ (c : SqlCall) (size : ℕ) (p : StoppingPosition) (next : StoppingPosition → Pass) where
  abbrev pub page : List ℕ
  page = take size (found c p)

  pub data PageOf : Pass → Type 0 where
    unread : (e : Error) → PageOf (record { position = p; hinted = []; finish = failed e })
    tail :
        (size == 0) ≡ false
        → page ≡ []
        → PageOf (record { position = start_position; hinted = []; finish = complete })
    stopped :
        (n : ℕ) (f : Finish)
        → is_stop f ≡ true
        → valid_page size p page ≡ true
        → PageOf (record {
          position = record p { after = last_or p.after (take n page) };
          hinted = take n page;
          finish = f;
        })
    finished :
        valid_page size p page ≡ true
        → last_or p.after page ≡ p.upper
        → PageOf (record { position = start_position; hinted = page; finish = complete })
    continues :
        (id : ℕ) (ids : List ℕ)
        → page ≡ id ∷ ids
        → valid_page size p page ≡ true
        → (last_or p.after page == p.upper) ≡ false
        → PageOf (resumed page (next (record p { after = last_or p.after page })))

  query-answers :
      ((e : Error) × (sql_call c (list_stopping_candidates p.after p.upper size) ≡ err e))
      ⊎ ((sql_call c (list_stopping_candidates p.after p.upper size) ≡ ok page)
          × ((size == 0) ≡ false))
  unfolding list_stopping_candidates
  query-answers = elim (Bool-cases c.ended) [
    | inl e ↦ inl (driver expired, ground arith)
    | inr e ↦ elim (Bool-cases (p.upper == 0 || ltb p.upper p.after || size == 0)) [
      | inl g ↦ inl (invalid_argument, ground arith)
      | inr g ↦ elim (Option-cases c.fault) [
        | inr (f, h) ↦ inl (driver f, ground arith)
        | inl h ↦ elim (Bool-cases c.ended_late) [
          | inl l ↦ inl (driver expired, ground arith)
          | inr l ↦ inr (ground arith, ground arith)
        ]
      ]
    ]
  ]

  admitted-PageOf :
      (id : ℕ) (ids : List ℕ) (r : ℕ × List ℕ × Admission)
      → page ≡ id ∷ ids
      → valid_page size p page ≡ true
      → AdmitOf (id ∷ ids) p.after r
      → PageOf (after_admit p r next)
  admitted-PageOf id ids (after, taken, context_ended) e v a =
      subst PageOf (let t = a.taken in let r = a.reached in ground arith)
        (stopped a.at (failed (driver expired)) refl v)
  admitted-PageOf id ids (after, taken, hint_refused) e v a =
      subst PageOf (let t = a.taken in let r = a.reached in ground arith)
        (stopped a.at refused refl v)
  admitted-PageOf id ids (after, taken, all_admitted) e v a = elim (Bool-cases (after == p.upper)) [
    | inl u ↦
        let r = a.reached in
        let w = a.whole refl in subst PageOf (ground arith) (finished v (ground arith))
    | inr u ↦
        let r = a.reached in
        let w : taken ≡ page = a.whole refl ∙ sym e in
        let l : after ≡ last_or p.after page = r ∙ ap (last_or p.after) w in
        subst PageOf (ground arith) (continues id ids e v (ground arith))
  ]

  read-PageOf :
      (env : ScanEnv) (k : ℕ) (ids : List ℕ)
      → page ≡ ids
      → (size == 0) ≡ false
      → valid_page size p page ≡ true
      → sql_call (env.pages k) (list_stopping_candidates p.after p.upper size) ≡ ok page
      → PageOf (scan_page env size k p next)
  unfolding scan_page
  read-PageOf env k [] e z v q = subst PageOf (ground arith) (tail z e)
  read-PageOf env k (id ∷ ids) e z v q = subst PageOf (ground arith) (
      admitted-PageOf id ids (admit (env.ended k) (env.hint k) 0 (id ∷ ids) p.after) e v
        (admit-AdmitOf (env.ended k) (env.hint k) 0 (id ∷ ids) p.after))

  pub scan_page-PageOf :
      (env : ScanEnv) (k : ℕ) → env.pages k ≡ c → PageOf (scan_page env size k p next)
  unfolding scan_page
  scan_page-PageOf env k h = elim query-answers [
    | inl (e, q) ↦ subst PageOf (ground arith) (unread e)
    | inr (q, z) ↦ elim (Bool-cases (valid_page size p page)) [
      | inr v ↦ subst PageOf (ground arith) (unread invalid_facts)
      | inl v ↦ read-PageOf env k page refl z v (rw h q)
    ]
  ]

-- What a pass comes to: it goes on from its position, or reads its bound first.
abbrev pub highest : SqlCall → ℕ
highest c =
    first_or_zero
      (take 1 (descending (map instance_id (select (λ i. is_stopping i.status) c.rows))))

pub data ScanOf (env : ScanEnv) (size : ℕ) (p : StoppingPosition) : Pass → Type 0 where
  goes_on : (p.upper == 0) ≡ false → ScanOf env size p (scan_from env size p)
  no_bound :
      (e : Error)
      → p.upper ≡ 0
      → ScanOf env size p (record { position = p; hinted = []; finish = failed e })
  nothing :
      p.upper ≡ 0
      → highest env.bound ≡ 0
      → ScanOf env size p (record { position = p; hinted = []; finish = none_stopping })
  sets_out :
      p.upper ≡ 0 → ScanOf env size p (scan_from env size (record p { upper = highest env.bound }))

pub scan-ScanOf :
    (env : ScanEnv) (size : ℕ) (p : StoppingPosition) → ScanOf env size p (scan env size p)
unfolding scan stopping_upper_id
scan-ScanOf env size p = elim (Bool-cases (p.upper == 0)) [
  | inr u ↦ subst (ScanOf env size p) (ground arith) (goes_on u)
  | inl u ↦ elim (Bool-cases env.bound.ended) [
    | inl e ↦ subst (ScanOf env size p) (ground arith) (no_bound (driver expired) (ground arith))
    | inr e ↦ elim (Option-cases env.bound.fault) [
      | inr (f, h) ↦ subst (ScanOf env size p) (ground arith) (no_bound (driver f) (ground arith))
      | inl h ↦ elim (Bool-cases env.bound.ended_late) [
        | inl l ↦
            subst (ScanOf env size p) (ground arith) (no_bound (driver expired) (ground arith))
        | inr l ↦ elim (Bool-cases (highest env.bound == 0)) [
          | inl z ↦ subst (ScanOf env size p) (ground arith) (nothing (ground arith) (ground arith))
          | inr z ↦ subst (ScanOf env size p) (ground arith) (sets_out (ground arith))
        ]
      ]
    ]
  ]
]
