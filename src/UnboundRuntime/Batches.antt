-- ===== src/UnboundRuntime/Batches.antt =====
-- taskrecovery/runtime.go: the batches of a page, with the settler of settler.go.
use dogx.Common.{
  ℕ, zero, suc, ◌+◌, ◌≤◌, ◌≡◌, refl, sym, ap, ◌∙◌, subst, is_none, true, Option, none, some, List,
  [], ◌∷◌, ◌++◌, length, take, arith, Bool-cases, inl, inr,
}
use dogx.Common.Chains.{last_of, last_of-append}
use dogx.Model.{Time, Snapshot}
use dogx.Model.Task.{JobTask}
use dogx.Database.{Error, driver, expired, invalid_facts}
use dogx.TaskStore.Targets.{skip_rows}
use dogx.Settler.{UnboundCandidate, FrozenBudget, max_batch_size}
use dogx.Settler.Batch.{Run, SettleEnv, settle_batch}
use dogx.Settler.Prefix.{settle_batch-IsPrefix}
use dogx.UnboundRuntime.{
  BatchEnv, Batch, no_progress, batch_end, valid_result, settle_next, then_rest, settle_page,
}

-- The counted candidates are the first ones, the cursor is the last of them, and without an error they
-- are all.
pub record BatchOf (cursor : Option UnboundCandidate) (cs : List UnboundCandidate) (b : Batch)
    : Type 0 where
  pub rest : List UnboundCandidate
  pub splits : b.1 ++ rest ≡ cs
  pub reached : b.0 ≡ last_of cursor b.1
  pub whole : b.2 ≡ none → b.1 ≡ cs

module _ {A : Type 0} where
  take_skip : (n : ℕ) (xs : List A) → take n xs ++ skip_rows n xs ≡ xs
  take_skip zero xs = refl
  take_skip (suc n) [] = refl
  take_skip (suc n) (x ∷ xs) = ap (◌∷◌ x) (take_skip n xs)

  append_assoc : (xs ys zs : List A) → (xs ++ ys) ++ zs ≡ xs ++ (ys ++ zs)
  append_assoc [] ys zs = refl
  append_assoc (x ∷ xs) ys zs = ap (◌∷◌ x) (append_assoc xs ys zs)

  take_all : (n : ℕ) (xs : List A) → n ≡ length xs → take n xs ≡ xs
  take_all zero [] h = refl
  take_all zero (x ∷ xs) h = absurd (omega arith)
  take_all (suc n) [] h = refl
  take_all (suc n) (x ∷ xs) h = ap (◌∷◌ x) (take_all n xs (omega arith))

none_of : {A : Type 0} (o : Option A) → o ≡ none → is_none o ≡ true
none_of none h = refl
none_of (some a) h = cc

module _ (unmarshal : Snapshot → Option FrozenBudget) (period : Time) where
  -- Whatever the settler meets, the counts that it returns for a batch pass the runtime's guard, so the
  -- guard never ends a run.
  pub settle_batch-valid_result :
      (env : SettleEnv) (cs : List UnboundCandidate) (tasks : List JobTask)
      → valid_result (length cs) (settle_batch unmarshal period env cs tasks) ≡ true
  unfolding valid_result
  settle_batch-valid_result env cs tasks =
      let i = settle_batch-IsPrefix unmarshal period env cs tasks in
      let x = settle_batch unmarshal period env cs tasks in
      elim (Bool-cases (is_none x.1)) [
        | inl e ↦ ground (arith, i.bounded, i.whole e, i.applied_counts)
        | inr e ↦ ground (arith, i.bounded, i.applied_counts)
      ]

  ended-BatchOf :
      (cursor : Option UnboundCandidate) (cs : List UnboundCandidate) (x : Run × Option Error)
      → (is_none x.1 ≡ true → x.0.processed ≡ length cs)
      → BatchOf cursor cs (batch_end cursor cs x)
  ended-BatchOf cursor cs (r, e) w = record {
    rest = skip_rows r.processed cs;
    splits = take_skip r.processed cs;
    reached = refl;
    whole = λ h. take_all r.processed cs (w (none_of e h));
  }

  stopped-BatchOf :
      (cursor : Option UnboundCandidate) (cs : List UnboundCandidate) (e : Error)
      → BatchOf cursor cs (no_progress cursor e)
  stopped-BatchOf cursor cs e = record { rest = cs; splits = refl; reached = refl; whole = λ h. cc }

  settle_next-BatchOf :
      (env : BatchEnv) (cursor : Option UnboundCandidate) (cs : List UnboundCandidate)
      → BatchOf cursor cs (settle_next unmarshal period env cursor cs)
  unfolding settle_next
  settle_next-BatchOf env cursor cs = elim (Bool-cases env.ended) [
    | inl e ↦ subst (BatchOf cursor cs) (ground arith) (stopped-BatchOf cursor cs (driver expired))
    | inr e ↦
        let x = settle_batch unmarshal period env.settle cs env.tasks in
        let i = settle_batch-IsPrefix unmarshal period env.settle cs env.tasks in
        let v = settle_batch-valid_result env.settle cs env.tasks in
        rw e (rw v (ended-BatchOf cursor cs x (λ q. omega (arith, i.whole q))))
  ]

  then_rest-BatchOf :
      (cursor : Option UnboundCandidate) (batch cs : List UnboundCandidate) (b : Batch)
      (rest : Option UnboundCandidate → Batch)
      → BatchOf cursor batch b
      → ((c : Option UnboundCandidate) → BatchOf c cs (rest c))
      → BatchOf cursor (batch ++ cs) (then_rest b rest)
  then_rest-BatchOf cursor batch cs (c, done, some e) rest i ih = record {
    rest = i.rest ++ cs;
    splits = sym (append_assoc done i.rest cs) ∙ ap (λ xs. xs ++ cs) i.splits;
    reached = i.reached;
    whole = λ h. cc;
  }
  then_rest-BatchOf cursor batch cs (c, done, none) rest i ih =
      let j = ih c in
      let w : done ≡ batch = i.whole refl in
      record {
        rest = j.rest;
        splits =
            append_assoc done (rest c).1 j.rest
            ∙ ap (λ xs. done ++ xs) j.splits
            ∙ ap (λ xs. xs ++ cs) w;
        reached =
            j.reached
            ∙ ap (λ a. last_of a (rest c).1) i.reached
            ∙ sym (last_of-append cursor done (rest c).1);
        whole = λ h. ap (λ xs. done ++ xs) (j.whole h) ∙ ap (λ xs. xs ++ cs) w;
      }

  pub settle_page-BatchOf :
      (envs : ℕ → BatchEnv) (k fuel : ℕ) (page : List UnboundCandidate)
      (cursor : Option UnboundCandidate)
      → BatchOf cursor page (settle_page unmarshal period envs k fuel page cursor)
  unfolding settle_page
  settle_page-BatchOf envs k fuel [] cursor = record {
    rest = [];
    splits = refl;
    reached = refl;
    whole = λ h. refl;
  }
  settle_page-BatchOf envs k zero (c ∷ cs) cursor = stopped-BatchOf cursor (c ∷ cs) invalid_facts
  settle_page-BatchOf envs k (suc fuel) (c ∷ cs) cursor =
      let batch = take max_batch_size (c ∷ cs) in
      let later = skip_rows max_batch_size (c ∷ cs) in
      let next = settle_page unmarshal period envs (k + 1) fuel later in
      subst
        (λ xs.
          BatchOf cursor xs (then_rest (settle_next unmarshal period (envs k) cursor batch) next))
        (take_skip max_batch_size (c ∷ cs))
        (then_rest-BatchOf cursor batch later _ next (settle_next-BatchOf (envs k) cursor batch)
          (settle_page-BatchOf envs (k + 1) fuel later))

  skip_shorter : (n : ℕ) (xs : List UnboundCandidate) → length (skip_rows n xs) ≤ length xs
  skip_shorter zero xs = omega arith
  skip_shorter (suc n) [] = omega arith
  skip_shorter (suc n) (x ∷ xs) = omega (arith, skip_shorter n xs)

  -- Fuel of the length of the page is enough: more changes nothing.
  pub settle_page_enough :
      (envs : ℕ → BatchEnv) (k fuel more : ℕ) (page : List UnboundCandidate)
      (cursor : Option UnboundCandidate)
      → length page ≤ fuel
      → length page ≤ more
      → settle_page unmarshal period envs k fuel page cursor
        ≡ settle_page unmarshal period envs k more page cursor
  unfolding settle_page
  settle_page_enough envs k fuel more [] cursor h m = refl
  settle_page_enough envs k zero more (c ∷ cs) cursor h m = absurd (omega arith)
  settle_page_enough envs k (suc fuel) zero (c ∷ cs) cursor h m = absurd (omega arith)
  settle_page_enough envs k (suc fuel) (suc more) (c ∷ cs) cursor h m =
      let s = skip_shorter 15 cs in
      ap (then_rest (settle_next unmarshal period (envs k) cursor (take max_batch_size (c ∷ cs))))
        (λ i. λ a.
          settle_page_enough envs (k + 1) fuel more (skip_rows max_batch_size (c ∷ cs)) a
            (omega (arith, s)) (omega (arith, s)) i)
