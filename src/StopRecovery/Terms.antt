-- ===== src/StopRecovery/Terms.antt =====
-- recovery.go: the passes of one term.
use dogx.Common.{
  ℕ, ◌<◌, ◌≡◌, ◌≢◌, refl, Bool, true, false, List, [], ◌∷◌, ◌⊎◌, inl, inr, arith, ◌||◌,
}
use dogx.Database.{elem}
use dogx.Database.Pages.{elem-append}
use dogx.StopRecovery.{
  ScanEnv, StoppingPosition, start_position, Finish, complete, none_stopping, refused, failed,
  no_fuel, scan, run,
}
use dogx.StopRecovery.Covers.{StopsThrough, Ahead, scan-Held}

-- Every pass of a term reads the Instance in STOPPING.
abbrev pub StopsInAll : ℕ → List ScanEnv → Type 0
StopsInAll id [] = Unit
StopsInAll id (env ∷ envs) = StopsThrough id env × StopsInAll id envs

-- One of the passes ended its traversal.
abbrev pub is_complete : Finish → Bool
is_complete complete = true
is_complete _ = false

abbrev pub completes : List Finish → Bool
completes [] = false
completes (f ∷ fs) = is_complete f || completes fs

not_complete : (f : Finish) → f ≢ complete → is_complete f ≡ false
not_complete complete h = absurd (h refl)
not_complete none_stopping h = refl
not_complete refused h = refl
not_complete (failed e) h = refl
not_complete no_fuel h = refl

run_held :
    (id size : ℕ) (envs : List ScanEnv) (p : StoppingPosition)
    → StopsInAll id envs
    → Ahead id p
    → (elem id (run size envs p).1 ≡ true)
      ⊎ ((completes (run size envs p).2 ≡ false) × Ahead id (run size envs p).0)
unfolding run
run_held id size [] p s a = inr (refl, a)
run_held id size (env ∷ envs) p s a =
    let r = scan env size p in
    let e = elem-append id r.hinted (run size envs r.position).1 in
    elim (scan-Held id env size p s.0 a) [
      | inl h ↦ inl (ground arith)
      | inr (n, b) ↦ elim (run_held id size envs r.position s.1 b) [
        | inl h ↦ inl (ground arith)
        | inr (m, b') ↦ inr (ground (arith, not_complete r.finish n), b')
      ]
    ]

-- An Instance with a positive ID that every query of a term reads in STOPPING, whatever else changes
-- in the table and whatever fails in between, is never passed over: either its hint was accepted in
-- the term, or no pass of the term came to the end of its traversal and the position at the end of
-- the term is before the ID, with no bound read or one that includes it.
pub run-hinted :
    (id size : ℕ) (envs : List ScanEnv)
    → 0 < id
    → StopsInAll id envs
    → (elem id (run size envs start_position).1 ≡ true)
      ⊎ ((completes (run size envs start_position).2 ≡ false)
          × Ahead id (run size envs start_position).0)
run-hinted id size envs h s = run_held id size envs start_position s (h, inl refl)
