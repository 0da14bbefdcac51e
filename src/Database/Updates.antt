-- ===== src/Database/Updates.antt =====
-- Lemmas on UPDATE: what it keeps of the rows, and that one which accepts no row changes none.
use dogx.Common.{
  ◌⊎◌, ℕ, suc, ◌≡◌, refl, sym, ◌∙◌, ap, ◌≢◌, ◌==◌, if◌then◌else◌, Bool, true, false, List, [], ◌∷◌,
  inl, inr, All, arith, Bool-cases, select, length,
}
use dogx.Database.{Error, Result, ok, err, update, affected}

-- Row by row, the two tables are related.
abbrev pub Rowwise : {A : Type 0} → (A → A → Type 0) → List A → List A → Type 0
Rowwise R [] [] = Unit
Rowwise R [] (_ ∷ _) = ⊥
Rowwise R (_ ∷ _) [] = ⊥
Rowwise R (t ∷ ts) (u ∷ us) = R t u × Rowwise R ts us

pub Rowwise-refl :
    {A : Type 0} (R : A → A → Type 0) → ((t : A) → R t t) → (rs : List A) → Rowwise R rs rs
Rowwise-refl R same [] = tt
Rowwise-refl R same (t ∷ ts) = (same t, Rowwise-refl R same ts)

module _ {A : Type 0} (accepts : A → Bool) (change : A → A) where
  pub update-All :
      {P : A → Type 0}
      → ((t : A) → accepts t ≡ true → P t → P (change t))
      → (rs : List A) → All P rs
      → All P (update accepts change rs)
  update-All keep [] h = tt
  update-All {P} keep (t ∷ ts) h = (row (accepts t) refl, update-All keep ts h.1)
    where
      row : (b : Bool) → accepts t ≡ b → P (if b then change t else t)
      row true e = keep t e h.0
      row false e = h.0

  pub update-Rowwise :
      (R : A → A → Type 0)
      → ((t : A) → R t t)
      → ((t : A) → accepts t ≡ true → R t (change t))
      → (rs : List A) → Rowwise R rs (update accepts change rs)
  update-Rowwise R same keep [] = tt
  update-Rowwise R same keep (t ∷ ts) = (row (accepts t) refl, update-Rowwise R same keep ts)
    where
      row : (b : Bool) → accepts t ≡ b → R t (if b then change t else t)
      row true e = keep t e
      row false e = same t

  -- No accepted row, no change.
  pub update-eq_of_none : (rs : List A) → affected accepts rs ≡ 0 → update accepts change rs ≡ rs
  update-eq_of_none [] h = refl
  update-eq_of_none (t ∷ ts) h = elim (Bool-cases (accepts t)) [
    | inl e ↦ absurd (let n : suc (affected accepts ts) ≡ 0 = rw e at h in omega arith)
    | inr e ↦ rw e (ap (◌∷◌ t) (update-eq_of_none ts (rw e at h)))
  ]

  pub length-update : (rs : List A) → length (update accepts change rs) ≡ length rs
  length-update [] = refl
  length-update (t ∷ ts) = ap suc (length-update ts)

module _ {A : Type 0} (accepts : A → Bool) where
  pub affected-zero : (rs : List A) → All (λ t. accepts t ≡ false) rs → affected accepts rs ≡ 0
  affected-zero [] h = refl
  affected-zero (t ∷ ts) h = rw h.0 (affected-zero ts h.1)

  pub none_accepted : (rs : List A) → affected accepts rs ≡ 0 → All (λ t. accepts t ≡ false) rs
  none_accepted [] h = tt
  none_accepted (t ∷ ts) h = elim (Bool-cases (accepts t)) [
    | inl e ↦ absurd (let n : suc (affected accepts ts) ≡ 0 = rw e at h in omega arith)
    | inr e ↦ (e, none_accepted ts (rw e at h))
  ]

  pub affected-length : (rs : List A) → affected accepts rs ≡ length (select accepts rs)
  affected-length [] = refl
  affected-length (t ∷ ts) = elim (Bool-cases (accepts t)) [
    | inl e ↦ rw e (ap suc (affected-length ts))
    | inr e ↦ rw e (affected-length ts)
  ]

  pub select-All : (P : A → Type 0) (rs : List A) → All P rs → All P (select accepts rs)
  select-All P [] h = tt
  select-All P (t ∷ ts) h = elim (Bool-cases (accepts t)) [
    | inl e ↦ rw e (h.0, select-All P ts h.1)
    | inr e ↦ rw e (select-All P ts h.1)
  ]

pub ne_of_test : (a b : ℕ) → (a == b) ≡ false → a ≢ b
ne_of_test a b h = ground arith

-- A statement for one identity touches at most one row of a table with distinct identities.
module _ {A : Type 0} (key : A → ℕ) where
  abbrev pub Unique : List A → Type 0
  Unique [] = Unit
  Unique (t ∷ ts) = All (λ u. (key u == key t) ≡ false) ts × Unique ts

  -- Rows with other keys are not accepted by a statement for the key of `t`.
  pub away :
      (k : ℕ) (accepts : A → Bool)
      → ((t : A) → accepts t ≡ true → key t ≡ k)
      → (t : A) → key t ≡ k
      → (rs : List A) → All (λ u. (key u == key t) ≡ false) rs
      → All (λ u. accepts u ≡ false) rs
  away k accepts only t e [] h = tt
  away k accepts only t e (u ∷ us) h = elim (Bool-cases (accepts u)) [
    | inl a ↦ absurd (ne_of_test (key u) (key t) h.0 (only u a ∙ sym e))
    | inr a ↦ (a, away k accepts only t e us h.1)
  ]

pub Result-cases :
    {A : Type 0} (r : Result A) → ((a : A) × (r ≡ ok a)) ⊎ ((e : Error) × (r ≡ err e))
Result-cases (ok a) = inl (a, refl)
Result-cases (err e) = inr (e, refl)
