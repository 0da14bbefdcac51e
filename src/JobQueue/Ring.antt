-- ===== src/JobQueue/Ring.antt =====
-- The circular buffer of queue.go: `size` IDs from `head` on, at positions modulo its length.
use Prim.Native.Nat.{ℕ, zero, suc, ◌+◌, ◌-◌, ◌%◌, ◌<◌, ◌≤◌}
use native.Mathlib.Nat.{mod-eq_of_lt, mod-eq-sub-mod, mod-add-mod, mod-lt, zero-add}
use dogx.Common.{
  ◌≡◌, refl, sym, ◌∙◌, ap, ap₂, ◌≢◌, List, [], ◌∷◌, ◌++◌, length, arith, ltb, Bool-cases, inl, inr,
  if◌then◌else◌,
}

-- make([]int64, n)
unfoldable pub make : ℕ → List ℕ
make zero = []
make (suc n) = 0 ∷ make n

-- b[i] = v
unfoldable pub set : List ℕ → ℕ → ℕ → List ℕ
set [] i v = []
set (x ∷ xs) zero v = v ∷ xs
set (x ∷ xs) (suc i) v = x ∷ set xs i v

-- b[i]
unfoldable pub at : List ℕ → ℕ → ℕ
at [] i = 0
at (x ∷ xs) zero = x
at (x ∷ xs) (suc i) = at xs i

-- The IDs at `n` positions from `head + i` on.
unfoldable pub slots : List ℕ → ℕ → ℕ → ℕ → List ℕ
slots b head i zero = []
slots b head i (suc n) = at b ((head + i) % length b) ∷ slots b head (i + 1) n

pub length-make : (n : ℕ) → length (make n) ≡ n
unfolding make
length-make zero = refl
length-make (suc n) = ap suc (length-make n)

pub length-set : (b : List ℕ) (i v : ℕ) → length (set b i v) ≡ length b
unfolding set
length-set [] i v = refl
length-set (x ∷ xs) zero v = refl
length-set (x ∷ xs) (suc i) v = ap suc (length-set xs i v)

pub at-set_self : (b : List ℕ) (i v : ℕ) → i < length b → at (set b i v) i ≡ v
unfolding at set
at-set_self [] i v h = absurd (omega arith)
at-set_self (x ∷ xs) zero v h = refl
at-set_self (x ∷ xs) (suc i) v h = at-set_self xs i v (omega arith)

pub at-set_ne : (b : List ℕ) (i j v : ℕ) → i ≢ j → at (set b i v) j ≡ at b j
unfolding at set
at-set_ne [] i j v h = refl
at-set_ne (x ∷ xs) zero zero v h = absurd (h refl)
at-set_ne (x ∷ xs) zero (suc j) v h = refl
at-set_ne (x ∷ xs) (suc i) zero v h = refl
at-set_ne (x ∷ xs) (suc i) (suc j) v h = at-set_ne xs i j v (λ e. h (ap suc e))

-- A position less than two rounds on.
mod_twice : (x c : ℕ) → x < c + c → x % c ≡ (if ltb x c then x else x - c)
mod_twice x c h = elim (Bool-cases (ltb x c)) [
  | inl e ↦ rw e (mod-eq_of_lt (ground arith))
  | inr e ↦ rw e (mod-eq-sub-mod (ground arith) ∙ mod-eq_of_lt (ground arith))
]

positions_differ : (head i n c : ℕ) → head < c → i < n → n < c → (head + n) % c ≢ (head + i) % c
positions_differ head i n c h a b e =
    absurd
      (ground (arith, mod_twice (head + n) c (omega arith), mod_twice (head + i) c (omega arith)))

slots-set :
    (b : List ℕ) (head i n m v : ℕ)
    → head < length b
    → i + n ≤ m
    → m < length b
    → slots (set b ((head + m) % length b) v) head i n ≡ slots b head i n
unfolding slots
slots-set b head i zero m v h a l = refl
slots-set b head i (suc n) m v h a l =
    let p = (head + m) % length b in
    ap₂ ◌∷◌
      (rw (length-set b p v) (
        at-set_ne b p ((head + i) % length b) v
          (positions_differ head i m (length b) h (omega arith) l)))
      (slots-set b head (i + 1) n m v h (omega arith) l)

slots_last :
    (b : List ℕ) (head i n : ℕ)
    → slots b head i (suc n) ≡ slots b head i n ++ at b ((head + (i + n)) % length b) ∷ []
unfolding slots
slots_last b head i zero = ap (λ k. at b ((head + k) % length b) ∷ []) (omega arith)
slots_last b head i (suc n) =
    let e : i + 1 + n ≡ i + suc n = omega arith in
    ap (◌∷◌ (at b ((head + i) % length b))) (
      slots_last b head (i + 1) n
      ∙ ap (λ k. slots b head (i + 1) n ++ at b ((head + k) % length b) ∷ []) e)

-- Moving the head on by one is the same as starting one position later.
slots_shift :
    (b : List ℕ) (head i n : ℕ) → slots b ((head + 1) % length b) i n ≡ slots b head (i + 1) n
unfolding slots
slots_shift b head i zero = refl
slots_shift b head i (suc n) =
    let e : head + 1 + i ≡ head + (i + 1) = omega arith in
    ap₂ ◌∷◌ (ap (at b) (mod-add-mod (head + 1) (length b) i ∙ ap (λ k. k % length b) e))
      (slots_shift b head (i + 1) n)

-- q.push: the written ID is the last of the longer queue, and the others stay.
pub slots_push :
    (b : List ℕ) (head n v : ℕ)
    → head < length b
    → n < length b
    → slots (set b ((head + n) % length b) v) head 0 (suc n) ≡ slots b head 0 n ++ v ∷ []
slots_push b head n v h l =
    let p = (head + n) % length b in
    slots_last (set b p v) head 0 n
    ∙ ap₂ (λ xs x. xs ++ x ∷ []) (slots-set b head 0 n n v h (omega arith) l)
        (rw (length-set b p v, zero-add n) (at-set_self b p v (mod-lt _ (omega arith))))

-- Taking the first ID.
pub slots_take :
    (b : List ℕ) (head n : ℕ)
    → slots b head 0 (suc n) ≡ at b (head % length b) ∷ slots b ((head + 1) % length b) 0 n
unfolding slots
slots_take b head n =
    ap₂ ◌∷◌ (ap (λ k. at b (k % length b)) (omega arith)) (sym (slots_shift b head 0 n))
