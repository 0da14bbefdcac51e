-- ===== src/Schedule/Previews.antt =====
-- schedule/cron.go: a preview is a chain of Next.
use Prim.Native.String.{String}
use dogx.Common.{
  ℕ, zero, suc, ◌<◌, ◌≡◌, subst, Option, none, some, List, [], ◌∷◌, inl, inr, arith, Option-cases,
}
use dogx.Model.{Time}
use dogx.Schedule.{Grammar, parse, occurrence, next, occurrences, found, preview}

-- At most n times, each the next one behind the last; fewer only where none follows.
pub data Chain (g : Grammar) (expr : String) : ℕ → Time → List Time → Type 0 where
  spent : {a : Time} → Chain g expr 0 a []
  ended : {n : ℕ} {a : Time} → next g expr a ≡ none → Chain g expr (suc n) a []
  step :
      {n : ℕ} {a : Time} {t : Time} {ts : List Time}
      → next g expr a ≡ some t
      → a < t
      → Chain g expr n t ts
      → Chain g expr (suc n) a (t ∷ ts)

pub data Previewed (g : Grammar) (expr : String) (after : Time) : Option (List Time) → Type 0 where
  nothing : next g expr after ≡ none → Previewed g expr after none
  listed :
      (t : Time) (ts : List Time)
      → Chain g expr 5 after (t ∷ ts)
      → Previewed g expr after (some (t ∷ ts))

occurrence-later : (s : Time → Time) (a t : Time) → occurrence s a ≡ some t → a < t
unfolding occurrence
occurrence-later s a t h = ground arith

occurrences-Chain :
    (g : Grammar) (expr : String) (s : Time → Time)
    → parse g expr ≡ some s
    → (n : ℕ) (a : Time) → Chain g expr n a (occurrences s n a)
unfolding next
occurrences-Chain g expr s p zero a = spent
occurrences-Chain g expr s p (suc n) a = elim (Option-cases (occurrence s a)) [
  | inl e ↦ subst (Chain g expr (suc n) a) (ground arith) (ended (ground arith))
  | inr (t, e) ↦
      let r = step (ground arith) (occurrence-later s a t e) (occurrences-Chain g expr s p n t) in
      subst (Chain g expr (suc n) a) (ground arith) r
]

found-Previewed :
    (g : Grammar) (expr : String) (a : Time) (ts : List Time)
    → Chain g expr 5 a ts
    → Previewed g expr a (found ts)
found-Previewed g expr a _ (ended e) = nothing e
found-Previewed g expr a (t ∷ ts) (step e l r) = listed t ts (step e l r)

next_unparsed :
    (g : Grammar) (expr : String) (after : Time) → parse g expr ≡ none → next g expr after ≡ none
unfolding next
next_unparsed g expr after e = ground arith

-- Preview fails exactly where Next finds nothing. Otherwise it lists at most five times, the first of
-- which Next finds behind the given time and each other behind the one before, all in ascending order,
-- and fewer than five only where Next finds no more.
pub preview-Previewed :
    (g : Grammar) (expr : String) (after : Time) → Previewed g expr after (preview g expr after)
unfolding preview
preview-Previewed g expr after = elim (Option-cases (parse g expr)) [
  | inl e ↦ subst (Previewed g expr after) (ground arith) (nothing (next_unparsed g expr after e))
  | inr (s, e) ↦
      let r =
        found-Previewed g expr after (occurrences s 5 after)
          (occurrences-Chain g expr s e 5 after) in
      subst (Previewed g expr after) (ground arith) r
]
