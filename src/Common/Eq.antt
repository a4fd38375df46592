-- ===== src/Common/Eq.antt =====
-- Equality tests as an interface, with an instance for each enumeration of `app/domain/enums.py`.
use Prim.Native.Nat.{ℕ}
use Prim.Native.String.{String}
use mathlib.Core.Path.{◌≡◌, refl, sym, ap, ◌∙◌}
use mathlib.Core.Logic.{◌≢◌, ◌↔◌, ◌⊎◌, inl, inr}
use mathlib.Core.Bool.{Bool, true, false, ◌||◌}
use mathlib.Core.List.{List, [], ◌∷◌}
use native.Mathlib.Omega.{arith}
use text.Mathlib.Text.{◌==◌ as str_eq}
use text.Mathlib.TextEquality.{eq_iff}
use claims_workbench_be.Common.Tests.{nat_beq, Bool-cases, if◌then◌else◌}
use claims_workbench_be.Common.Lists.{get_or}

-- A test, and that it decides equality.
pub record BEq {ℓ} (A : Type ℓ) : Type ℓ where
  pub beq : A → A → Bool
  pub beq_decides : (x y : A) → (beq x y ≡ true) ↔ (x ≡ y)

infix 50 ◌==◌ ◌∈?◌
abbrev pub ◌==◌ {ℓ} : {A : Type ℓ} ⦃e : BEq A⦄ → A → A → Bool
◌==◌ ⦃e⦄ = e.beq

-- `a in xs`
abbrev pub ◌∈?◌ {ℓ} : {A : Type ℓ} ⦃e : BEq A⦄ → A → List A → Bool
a ∈? [] = false
a ∈? (x ∷ xs) = a == x || a ∈? xs

pub nat_beq_iff : (a b : ℕ) → (nat_beq a b ≡ true) ↔ (a ≡ b)
nat_beq_iff a b = ground arith

instance abbrev pub nat_eq : BEq ℕ
nat_eq = record { beq_decides = nat_beq_iff; beq = nat_beq }

instance abbrev pub string_eq : BEq String
string_eq = record { beq_decides = eq_iff; beq = str_eq }

-- An enumeration is listed by `members`, and `rank` is the place of each in the list.
pub rank_iff :
    {A : Type 0} (rank : A → ℕ) (members : List A) (d : A)
    → ((a : A) → get_or members (rank a) d ≡ a)
    → (a b : A) → (nat_beq (rank a) (rank b) ≡ true) ↔ (a ≡ b)
rank_iff rank members d back a b = (
  λ h. sym (back a) ∙ ap (λ n. get_or members n d) ((nat_beq_iff _ _).0 h) ∙ back b,
  λ e. (nat_beq_iff _ _).1 (ap rank e),
)

abbrev pub enum_eq :
    {A : Type 0} (rank : A → ℕ) (members : List A) (d : A)
    → ((a : A) → get_or members (rank a) d ≡ a)
    → BEq A
enum_eq rank members d back = record {
  beq = λ a b. nat_beq (rank a) (rank b);
  beq_decides = rank_iff rank members d back;
}

module _ {ℓ} {A : Type ℓ} ⦃e : BEq A⦄ where
  pub beq_self : (a : A) → (a == a) ≡ true
  beq_self a = (e.beq_decides a a).1 refl

  pub eq_cases : (a b : A) → (((a == b) ≡ true) × (a ≡ b)) ⊎ (((a == b) ≡ false) × (a ≢ b))
  eq_cases a b = elim (Bool-cases (a == b)) [
    | inl h ↦ inl (h, (e.beq_decides a b).0 h)
    | inr h ↦ inr (h, λ p. let t : (a == b) ≡ true = (e.beq_decides a b).1 p in cc)
  ]

-- Lists are compared element by element.
abbrev pub list_beq {ℓ} : {A : Type ℓ} → BEq A → List A → List A → Bool
list_beq e [] [] = true
list_beq e [] (y ∷ ys) = false
list_beq e (x ∷ xs) [] = false
list_beq e (x ∷ xs) (y ∷ ys) = if e.beq x y then list_beq e xs ys else false

pub list_beq_iff : {A : Type 0} (e : BEq A) (xs ys : List A) → (list_beq e xs ys ≡ true) ↔ (xs ≡ ys)
list_beq_iff e [] [] = (λ h. refl, λ h. refl)
list_beq_iff e [] (y ∷ ys) = (λ h. cc, λ h. cc)
list_beq_iff e (x ∷ xs) [] = (λ h. cc, λ h. cc)
list_beq_iff e (x ∷ xs) (y ∷ ys) =
    let head = e.beq_decides x y in
    let tail = list_beq_iff e xs ys in
    (λ h. ground (arith, head.0, tail.0), λ h. ground (arith, head.1, tail.1))

instance abbrev pub list_eq : {A : Type 0} ⦃e : BEq A⦄ → BEq (List A)
list_eq ⦃e⦄ = record { beq_decides = list_beq_iff e; beq = list_beq e }
