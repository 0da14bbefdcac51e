-- ===== src/StopRecovery/Forward.antt =====
-- recovery.go: the scan moves forward.
use dogx.Common.{
  ℕ, zero, suc, ◌+◌, ◌-◌, ◌≤◌, ◌≡◌, refl, true, List, [], ◌∷◌, ◌++◌, ◌⊎◌, inl, inr, All, last_or,
  arith,
}
use dogx.Common.Sort.{Ascends, Ascends-take, All-take}
use dogx.Stop.Batch.{valid_ordered_ids, ascending}
use dogx.StopRecovery.{
  SqlCall, ScanEnv, StoppingPosition, start_position, complete, Pass, valid_page, scan_pages,
  scan_from,
}
use dogx.StopRecovery.Scanned.{
  PageOf, page, unread, tail, stopped, finished, continues, scan_page-PageOf,
}

-- The accepted IDs ascend from the position on and stay within its bound; the next position is the
-- start, or the same bound behind the last accepted ID.
pub record IsForward (p : StoppingPosition) (r : Pass) : Type 0 where
  pub ascends : Ascends p.after r.hinted
  pub bounded : All (λ id. id ≤ p.upper) r.hinted
  pub resumes :
      ((r.finish ≡ complete) × (r.position ≡ start_position))
      ⊎ (r.position ≡ record p { after = last_or p.after r.hinted })

ascending-Ascends : (p : ℕ) (ids : List ℕ) → ascending p ids ≡ true → Ascends p ids
unfolding ascending
ascending-Ascends p [] h = tt
ascending-Ascends p (x ∷ xs) h = (ground arith, ascending-Ascends x xs (ground arith))

Ascends-last :
    (p b : ℕ) (ids : List ℕ) → Ascends p ids → last_or p ids ≤ b → (p ≤ b) × All (λ x. x ≤ b) ids
Ascends-last p b [] a h = (h, tt)
Ascends-last p b (x ∷ xs) a h =
    let r = Ascends-last x b xs a.1 h in let k = a.0 in (omega (arith, r.0), (r.0, r.1))

pub Ascends-append :
    (p : ℕ) (xs ys : List ℕ) → Ascends p xs → Ascends (last_or p xs) ys → Ascends p (xs ++ ys)
Ascends-append p [] ys a b = b
Ascends-append p (x ∷ xs) ys a b = (a.0, Ascends-append x xs ys a.1 b)

All-append : (P : ℕ → Type 0) (xs ys : List ℕ) → All P xs → All P ys → All P (xs ++ ys)
All-append P [] ys a b = b
All-append P (x ∷ xs) ys a b = (a.0, All-append P xs ys a.1 b)

last_or-append : (p : ℕ) (xs ys : List ℕ) → last_or p (xs ++ ys) ≡ last_or (last_or p xs) ys
last_or-append p [] ys = refl
last_or-append p (x ∷ xs) ys = last_or-append x xs ys

pub valid_page-Ascends :
    (size : ℕ) (p : StoppingPosition) (ids : List ℕ)
    → valid_page size p ids ≡ true
    → Ascends p.after ids × All (λ id. id ≤ p.upper) ids
unfolding valid_page valid_ordered_ids ascending
valid_page-Ascends size p [] v = (tt, tt)
valid_page-Ascends size p (id ∷ ids) v =
    let a = ascending-Ascends id ids (ground arith) in
    let b = Ascends-last id p.upper ids a (ground arith) in ((ground arith, a), b)

PageOf-IsForward :
    (c : SqlCall) (size : ℕ) (p : StoppingPosition) (next : StoppingPosition → Pass) (r : Pass)
    → ((q : StoppingPosition) → IsForward q (next q))
    → PageOf c size p next r
    → IsForward p r
PageOf-IsForward c size p next _ ih (unread e) = record {
  ascends = tt;
  bounded = tt;
  resumes = inr refl;
}
PageOf-IsForward c size p next _ ih (tail z e) = record {
  ascends = tt;
  bounded = tt;
  resumes = inl (refl, refl);
}
PageOf-IsForward c size p next _ ih (stopped n f s v) =
    let a = valid_page-Ascends size p (page c size p next) v in
    record {
      ascends = Ascends-take p.after n _ a.0;
      bounded = All-take _ n _ a.1;
      resumes = inr refl;
    }
PageOf-IsForward c size p next _ ih (finished v e) =
    let a = valid_page-Ascends size p (page c size p next) v in
    record { ascends = a.0; bounded = a.1; resumes = inl (refl, refl) }
PageOf-IsForward c size p next _ ih (continues id ids e v l) =
    let ids' = page c size p next in
    let a = valid_page-Ascends size p ids' v in
    let q : StoppingPosition = record p { after = last_or p.after ids' } in
    let f = ih q in
    record {
      ascends = Ascends-append p.after ids' (next q).hinted a.0 f.ascends;
      bounded = All-append _ ids' (next q).hinted a.1 f.bounded;
      resumes = elim f.resumes [
        | inl h ↦ inl h
        | inr h ↦ inr (ground (arith, h, last_or-append p.after ids' (next q).hinted))
      ];
    }

scan_pages-IsForward :
    (env : ScanEnv) (size fuel k : ℕ) (p : StoppingPosition)
    → IsForward p (scan_pages env size fuel k p)
unfolding scan_pages
scan_pages-IsForward env size zero k p = record { ascends = tt; bounded = tt; resumes = inr refl }
scan_pages-IsForward env size (suc fuel) k p =
    let next = scan_pages env size fuel (k + 1) in
    PageOf-IsForward (env.pages k) size p next _ (scan_pages-IsForward env size fuel (k + 1))
      (scan_page-PageOf (env.pages k) size p next env k refl)

-- Whatever the queries find or fail with, and whatever the queue answers, the IDs whose hints a pass
-- has accepted from a position with a bound are strictly ascending, above the position and at most
-- the bound; the position that it leaves is the start with the traversal complete, or has the same
-- bound and lies at the last accepted ID, or where it was when there is none.
pub scan_from-IsForward :
    (env : ScanEnv) (size : ℕ) (p : StoppingPosition) → IsForward p (scan_from env size p)
unfolding scan_from
scan_from-IsForward env size p = scan_pages-IsForward env size (suc (p.upper - p.after)) 0 p
