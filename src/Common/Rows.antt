-- ===== src/Common/Rows.antt =====
-- The keys of the rows that a WHERE clause selects.
use Prim.Native.Nat.{ℕ}
use mathlib.Core.Logic.{inl, inr}
use mathlib.Core.Path.{◌≡◌}
use mathlib.Core.Bool.{Bool, true}
use mathlib.Core.List.{List, [], ◌∷◌, map}
use dogx.Common.Tests.{Bool-cases}
use dogx.Common.Lists.{All, select}
use dogx.Common.Sort.{DistinctIds}

module _ {A : Type 0} (key : A → ℕ) (p : A → Bool) where
  pub All-select :
      (P : ℕ → Type 0) (rs : List A) → All P (map key rs) → All P (map key (select p rs))
  All-select P [] h = tt
  All-select P (r ∷ rs) h = elim (Bool-cases (p r)) [
    | inl e ↦ rw e (h.0, All-select P rs h.1)
    | inr e ↦ rw e (All-select P rs h.1)
  ]

  pub DistinctIds-select :
      (rs : List A) → DistinctIds (map key rs) → DistinctIds (map key (select p rs))
  DistinctIds-select [] d = tt
  DistinctIds-select (r ∷ rs) d = elim (Bool-cases (p r)) [
    | inl e ↦ rw e (d.0, All-select _ rs d.1, DistinctIds-select rs d.2)
    | inr e ↦ rw e (DistinctIds-select rs d.2)
  ]

  -- What holds of each row that passes holds of each selected key.
  pub All-passing :
      (P : ℕ → Type 0) (rs : List A)
      → ((r : A) → p r ≡ true → P (key r))
      → All P (map key (select p rs))
  All-passing P [] h = tt
  All-passing P (r ∷ rs) h = elim (Bool-cases (p r)) [
    | inl e ↦ rw e (h r e, All-passing P rs h)
    | inr e ↦ rw e (All-passing P rs h)
  ]
