-- ===== src/Common/Chains.antt =====
-- Lists in which each entry passes a test against the one before it, as the scans check their pages.
use Prim.Native.Nat.{ℕ, zero, suc}
use mathlib.Core.Path.{◌≡◌, refl}
use mathlib.Core.Bool.{Bool, true, ◌&&◌}
use mathlib.Core.Option.{Option, some}
use mathlib.Core.List.{List, [], ◌∷◌, ◌++◌}
use native.Mathlib.Omega.{arith}
use dogx.Common.Lists.{take}

-- The last entry, or the one given.
abbrev pub last_of : {A : Type 0} → Option A → List A → Option A
last_of a [] = a
last_of a (x ∷ xs) = last_of (some x) xs

pub last_of-append :
    {A : Type 0} (a : Option A) (xs ys : List A) → last_of a (xs ++ ys) ≡ last_of (last_of a xs) ys
last_of-append a [] ys = refl
last_of-append a (x ∷ xs) ys = last_of-append (some x) xs ys

module _ {A : Type 0} (follows : Option A → A → Bool) where
  unfoldable pub chained : Option A → List A → Bool
  chained previous [] = true
  chained previous (x ∷ xs) = follows previous x && chained (some x) xs

  pub chained-append :
      (a : Option A) (xs ys : List A)
      → chained a xs ≡ true
      → chained (last_of a xs) ys ≡ true
      → chained a (xs ++ ys) ≡ true
  unfolding chained
  chained-append a [] ys h k = k
  chained-append a (x ∷ xs) ys h k = ground (arith, chained-append (some x) xs ys)

  pub chained-take :
      (n : ℕ) (a : Option A) (xs : List A) → chained a xs ≡ true → chained a (take n xs) ≡ true
  unfolding chained
  chained-take zero a xs h = refl
  chained-take (suc n) a [] h = refl
  chained-take (suc n) a (x ∷ xs) h = ground (arith, chained-take n (some x) xs)

  pub chained-prefix :
      (a : Option A) (xs ys : List A) → chained a (xs ++ ys) ≡ true → chained a xs ≡ true
  unfolding chained
  chained-prefix a [] ys h = refl
  chained-prefix a (x ∷ xs) ys h = ground (arith, chained-prefix (some x) xs ys)
