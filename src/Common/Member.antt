-- ===== src/Common/Member.antt =====
-- Membership by a Boolean test, and what filters do to it.
use mathlib.Core.Path.{◌≡◌, refl, ap, ◌∙◌}
use mathlib.Core.Bool.{Bool, true, false, ◌&&◌, ◌||◌}
use mathlib.Core.Logic.{inl, inr}
use native.Mathlib.Omega.{arith}
use claims_workbench_be.Common.Tests.{Bool-cases}
use mathlib.Core.List.{List, [], ◌∷◌, ◌++◌}
use claims_workbench_be.Common.Lists.{keep}
use claims_workbench_be.Common.Eq.{BEq, eq_cases, ◌∈?◌}

-- Two lists with the same members: what Python's `set(xs)` remembers of a list.
abbrev pub SameMembers {ℓ} : {A : Type ℓ} ⦃e : BEq A⦄ → List A → List A → Type ℓ
SameMembers {A} xs ys = (a : A) → (a ∈? xs) ≡ (a ∈? ys)

-- A filter by two tests that agree everywhere is the same filter.
pub keep_cong {ℓ} :
    {A : Type ℓ} (p q : A → Bool) → ((a : A) → p a ≡ q a) → (xs : List A) → keep p xs ≡ keep q xs
keep_cong p q h [] = refl
keep_cong p q h (x ∷ xs) = rw (h x, keep_cong p q h xs)

-- Membership in a filtered list.
pub mem-keep {ℓ} :
    {A : Type ℓ} ⦃e : BEq A⦄ (p : A → Bool) (a : A) (xs : List A)
    → (a ∈? keep p xs) ≡ (p a && a ∈? xs)
mem-keep p a [] = ground arith
mem-keep p a (x ∷ xs) = elim (eq_cases a x) [
  | inl (t, same) ↦ elim (Bool-cases (p x)) [
    | inl y ↦ let held : p a ≡ true = ap p same ∙ y in ground (arith, mem-keep p a xs)
    | inr n ↦ let gone : p a ≡ false = ap p same ∙ n in ground (arith, mem-keep p a xs)
  ]
  | inr (t, other) ↦ ground (arith, mem-keep p a xs)
]

-- Membership in a concatenation.
pub mem-append {ℓ} :
    {A : Type ℓ} ⦃e : BEq A⦄ (a : A) (xs ys : List A) → (a ∈? (xs ++ ys)) ≡ (a ∈? xs || a ∈? ys)
mem-append a [] ys = refl
mem-append a (x ∷ xs) ys = ground (arith, mem-append a xs ys)

pub and_false : (b : Bool) → (b && false) ≡ false
and_false b = ground arith

pub or_false : (b : Bool) → (b || false) ≡ b
or_false b = ground arith

pub and_true_right : (b : Bool) → (b && true) ≡ b
and_true_right b = ground arith
