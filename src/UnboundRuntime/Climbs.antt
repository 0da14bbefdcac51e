-- ===== src/UnboundRuntime/Climbs.antt =====
-- taskrecovery/runtime.go: the traversal moves forward, and only over what was processed.
use dogx.Common.{
  ℕ, ◌≡◌, refl, sym, subst, ltb, Bool, true, false, Option, none, some, List, [], ◌∷◌, ◌⊎◌, inl,
  inr, length, arith, Bool-cases,
}
use dogx.Common.Chains.{chained, chained-append, chained-prefix, last_of, last_of-append}
use dogx.Model.{Time, Snapshot}
use dogx.Database.{Error, driver, expired, invalid_facts}
use dogx.Database.Updates.{Result-cases}
use dogx.Settler.{FrozenBudget}
use dogx.UnboundRuntime.{
  Traversal, new_traversal, PageEnv, complete, Scan, follows, valid_unbound_page, Batch, stays,
  page_end, read_page, settle_page, scan_page, scan_pages,
}
use dogx.UnboundRuntime.Batches.{settle_page-BatchOf}

-- The processed candidates climb behind the cursor, and the next state is a new traversal, with this
-- one complete, or this one with the last processed candidate as its cursor.
pub record IsClimbing (s : Traversal) (r : Scan) : Type 0 where
  pub climbs : chained (follows s.cutoff) s.cursor r.processed ≡ true
  pub resumes :
      ((r.finish ≡ complete) × (r.state ≡ new_traversal))
      ⊎ (r.state ≡ record s { cursor = last_of s.cursor r.processed })

stays-IsClimbing : (s : Traversal) (e : Error) → IsClimbing s (stays s e)
unfolding chained
stays-IsClimbing s e = record { climbs = refl; resumes = inr refl }

page_end-IsClimbing :
    (s : Traversal) (short : Bool) (b : Batch) (next : Traversal → Scan)
    → chained (follows s.cutoff) s.cursor b.1 ≡ true
    → b.0 ≡ last_of s.cursor b.1
    → ((t : Traversal) → IsClimbing t (next t))
    → IsClimbing s (page_end s short b next)
page_end-IsClimbing s short (cursor, done, some e) next c l ih = record {
  climbs = c;
  resumes = inr (ground (arith, l));
}
page_end-IsClimbing s true (cursor, done, none) next c l ih = record {
  climbs = c;
  resumes = inl (refl, refl);
}
page_end-IsClimbing s false (cursor, done, none) next c l ih =
    let t : Traversal = record s { cursor = cursor } in
    let i = ih t in
    record {
      climbs =
          chained-append (follows s.cutoff) s.cursor done (next t).processed c
            (subst (λ a. chained (follows s.cutoff) a (next t).processed ≡ true) l i.climbs);
      resumes = elim i.resumes [
        | inl h ↦ inl h
        | inr h ↦ inr (ground (arith, h, l, last_of-append s.cursor done (next t).processed))
      ];
    }

module _ (unmarshal : Snapshot → Option FrozenBudget) (period : Time) where
  scan_page-IsClimbing :
      (env : PageEnv) (size : ℕ) (s : Traversal) (next : Traversal → Scan)
      → ((t : Traversal) → IsClimbing t (next t))
      → IsClimbing s (scan_page unmarshal period env size s next)
  unfolding scan_page valid_unbound_page
  scan_page-IsClimbing env size s next ih = elim (Bool-cases env.ended) [
    | inl e ↦ subst (IsClimbing s) (ground arith) (stays-IsClimbing s (driver expired))
    | inr e ↦ elim (Result-cases (read_page env s size)) [
      | inr (f, q) ↦ subst (IsClimbing s) (ground arith) (stays-IsClimbing s f)
      | inl (page, q) ↦ elim (Bool-cases (valid_unbound_page page s size)) [
        | inr v ↦ subst (IsClimbing s) (ground arith) (stays-IsClimbing s invalid_facts)
        | inl v ↦
            let b = settle_page unmarshal period env.batches 0 (length page) page s.cursor in
            let i =
              settle_page-BatchOf unmarshal period env.batches 0 (length page) page s.cursor in
            let c : chained (follows s.cutoff) s.cursor page ≡ true = ground arith in
            subst (IsClimbing s) (ground arith) (
              page_end-IsClimbing s (ltb (length page) size) b next
                (chained-prefix (follows s.cutoff) s.cursor b.1 i.rest
                  (subst (λ xs. chained (follows s.cutoff) s.cursor xs ≡ true) (sym i.splits) c))
                i.reached ih)
      ]
    ]
  ]

  -- Whatever the Contexts, the queries, the settler and its database answer, the candidates that one run
  -- counts as processed from any state of a traversal have positive identities, were registered at a
  -- set time not after the cutoff, and strictly ascend by registration time and Task ID behind the
  -- cursor; and the run leaves a new traversal, with the old one complete, or the old one with the
  -- last processed candidate as its cursor, so that the first one not processed is next.
  pub scan_pages-IsClimbing :
      (size : ℕ) (envs : List PageEnv) (s : Traversal)
      → IsClimbing s (scan_pages unmarshal period size envs s)
  unfolding scan_pages chained
  scan_pages-IsClimbing size [] s = record { climbs = refl; resumes = inr refl }
  scan_pages-IsClimbing size (env ∷ envs) s =
      scan_page-IsClimbing env size s (scan_pages unmarshal period size envs)
        (scan_pages-IsClimbing size envs)
