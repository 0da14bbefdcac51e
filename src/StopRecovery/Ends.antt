-- ===== src/StopRecovery/Ends.antt =====
-- recovery.go: a pass ends, and over a database that answers it comes to the end of its traversal.
use dogx.Common.{
  ℕ, zero, suc, ◌+◌, ◌-◌, ◌≤◌, ◌<◌, ◌≡◌, ◌≢◌, refl, subst, List, [], ◌∷◌, All, last_or, arith,
}
use dogx.Common.Sort.{Ascends}
use dogx.StopRecovery.{
  SqlCall, ScanEnv, StoppingPosition, no_fuel, Pass, scan_pages, scan_from, scan,
}
use dogx.StopRecovery.Scanned.{
  PageOf, page, unread, tail, stopped, finished, continues, scan_page-PageOf, ScanOf, goes_on,
  no_bound, nothing, sets_out, scan-ScanOf,
}
use dogx.StopRecovery.Forward.{valid_page-Ascends}

-- A valid page with an ID moves the position on, within the bound.
page_advances :
    (a b x : ℕ) (xs : List ℕ)
    → Ascends a (x ∷ xs)
    → All (λ id. id ≤ b) (x ∷ xs)
    → (a < last_or a (x ∷ xs)) × (last_or a (x ∷ xs) ≤ b)
page_advances a b x [] s l = (s.0, l.0)
page_advances a b x (y ∷ ys) s l =
    let r = page_advances x b y ys s.1 l.1 in let k = s.0 in (omega (arith, r.0), r.1)

PageOf-fuel :
    (c : SqlCall) (size : ℕ) (p : StoppingPosition) (next : StoppingPosition → Pass) (r : Pass)
    → ((q : StoppingPosition)
        → q.upper ≡ p.upper
        → q.upper - q.after < p.upper - p.after
        → (next q).finish ≢ no_fuel)
    → PageOf c size p next r
    → r.finish ≢ no_fuel
PageOf-fuel c size p next _ ih (unread e) = λ q. cc
PageOf-fuel c size p next _ ih (tail z e) = λ q. cc
PageOf-fuel c size p next _ ih (stopped n f s v) = λ q. ground arith
PageOf-fuel c size p next _ ih (finished v e) = λ q. cc
PageOf-fuel c size p next _ ih (continues x xs e v l) =
    let a = valid_page-Ascends size p (page c size p next) v in
    let b =
      page_advances p.after p.upper x xs (subst (Ascends p.after) e a.0) (subst (All _) e a.1) in
    ih (record p { after = last_or p.after (page c size p next) }) refl
      (rw e (ground (arith, b.0, b.1)))

scan_pages-fuel :
    (env : ScanEnv) (size fuel k : ℕ) (p : StoppingPosition)
    → p.upper - p.after < fuel
    → (scan_pages env size fuel k p).finish ≢ no_fuel
unfolding scan_pages
scan_pages-fuel env size zero k p h = absurd (omega arith)
scan_pages-fuel env size (suc fuel) k p h =
    let next = scan_pages env size fuel (k + 1) in
    PageOf-fuel (env.pages k) size p next _
      (λ q u l. scan_pages-fuel env size fuel (k + 1) q (omega arith))
      (scan_page-PageOf (env.pages k) size p next env k refl)

pub scan_from-fuel :
    (env : ScanEnv) (size : ℕ) (p : StoppingPosition) → (scan_from env size p).finish ≢ no_fuel
unfolding scan_from
scan_from-fuel env size p = scan_pages-fuel env size (suc (p.upper - p.after)) 0 p (omega arith)

ScanOf-fuel :
    (env : ScanEnv) (size : ℕ) (p : StoppingPosition) (r : Pass)
    → ScanOf env size p r
    → r.finish ≢ no_fuel
ScanOf-fuel env size p _ (goes_on u) = scan_from-fuel env size p
ScanOf-fuel env size p _ (no_bound e u) = λ q. cc
ScanOf-fuel env size p _ (nothing u z) = λ q. cc
ScanOf-fuel env size p _ (sets_out u) = scan_from-fuel env size _

-- Whatever the queries, the Contexts and the queue answer, from any position, one page more than
-- there are IDs between the position and the bound is enough for a pass to end.
pub scan-fuel :
    (env : ScanEnv) (size : ℕ) (p : StoppingPosition) → (scan env size p).finish ≢ no_fuel
scan-fuel env size p = ScanOf-fuel env size p _ (scan-ScanOf env size p)
