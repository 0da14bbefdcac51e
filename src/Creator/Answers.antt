-- ===== src/Creator/Answers.antt =====
-- trigger/creator.go: reading the answers of its chains of calls backwards.
use dogx.Common.{
  ℕ, ◌==◌, Bool-cases, List, [], ◌∷◌, ◌≡◌, refl, Bool, true, false, Option, none, some, ◌⊎◌, inl,
  inr, arith, if◌then◌else◌,
}
use dogx.Database.{Fault, Result, ok, err}
use dogx.InstanceStore.Listings.{queried}
use dogx.Model.Job.{JobDefinition}
use dogx.Creator.{lock, Answer, value, failed, TriggerError, ◌>>=◌, from_result}

pub Answer-cases :
    {A : Type 0} (a : Answer A) → ((e : TriggerError) × (a ≡ failed e)) ⊎ ((x : A) × (a ≡ value x))
Answer-cases (failed e) = inl (e, refl)
Answer-cases (value x) = inr (x, refl)

pub >>=_value :
    {A B : Type 0} (a : Answer A) (f : A → Answer B) (b : B)
    → (a >>= f) ≡ value b
    → (x : A) × (a ≡ value x) × (f x ≡ value b)
>>=_value (failed e) f b h = absurd (ground arith)
>>=_value (value x) f b h = (x, refl, h)

pub >>=_elim :
    {A B C : Type 0} {f : A → Answer B} {b : B} (a : Answer A)
    → (a >>= f) ≡ value b
    → ((x : A) → a ≡ value x → f x ≡ value b → C)
    → C
>>=_elim a h next = let r = >>=_value a _ _ h in next r.0 r.1 r.2

pub if-failed-value :
    {A : Type 0} (c : Bool) (e : TriggerError) (a : Answer A) (b : A)
    → (if c then failed e else a) ≡ value b
    → (c ≡ false) × (a ≡ value b)
if-failed-value true e a b h = absurd (ground arith)
if-failed-value false e a b h = (refl, h)

pub from_result-value : {A : Type 0} (r : Result A) (a : A) → from_result r ≡ value a → r ≡ ok a
from_result-value (err e) a h = absurd (ground arith)
from_result-value (ok x) a h = ground arith

pub queried-ok : {A : Type 0} (fault : Option Fault) (a b : A) → queried fault a ≡ ok b → a ≡ b
queried-ok none a b h = ground arith
queried-ok (some f) a b h = absurd (ground arith)

pub if_elim :
    {A C : Type 0} {x y a : A} (c : Bool)
    → (if c then x else y) ≡ a
    → (c ≡ true → x ≡ a → C)
    → (c ≡ false → y ≡ a → C)
    → C
if_elim true h on_true on_false = on_true refl h
if_elim false h on_true on_false = on_false refl h

pub value-injective : {A : Type 0} {a b : A} → value a ≡ value b → a ≡ b
value-injective h = ground arith

pub Option_elim :
    {A B C : Type 0} {f : A → Answer B} {b : Answer B} (o : Option A) (x : Answer B)
    → elim o as (λ _. Answer B) [ none ↦ x | some a ↦ f a ] ≡ b
    → (o ≡ none → x ≡ b → C)
    → ((a : A) → o ≡ some a → f a ≡ b → C)
    → C
Option_elim none x h without within = without refl h
Option_elim (some a) x h without within = within a refl h

-- A lock that answers would answer again, and with the Job that was asked for.
pub lock-id :
    (fault : Option Fault) (id : ℕ) (jobs : List JobDefinition) (j : JobDefinition)
    → lock fault id jobs ≡ value j
    → (lock none id jobs ≡ value j) × ((j.id == id) ≡ true)
unfolding lock
lock-id (some f) id jobs j h = absurd (ground arith)
lock-id none id [] j h = absurd (ground arith)
lock-id none id (i ∷ jobs) j h = elim (Bool-cases (i.id == id)) [
  | inl e ↦ (h, ground arith)
  | inr e ↦ (h, (lock-id none id jobs j (ground arith)).1)
]
