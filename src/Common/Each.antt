-- ===== src/Common/Each.antt =====
-- A property of every member of a list, kept by what only drops, reorders or reads members.
use mathlib.Core.Path.{◌≡◌, refl}
use mathlib.Core.Logic.{inl, inr}
use mathlib.Core.Bool.{Bool, true}
use mathlib.Core.List.{List, [], ◌∷◌, map, Memᴰ}
use Prim.Native.Nat.{ℕ, zero, suc}
use claims_workbench_be.Common.Tests.{if◌then◌else◌, Bool-cases}
use claims_workbench_be.Common.Lists.{keep, take}

abbrev pub Each {ℓ} : {A : Type ℓ} → (A → Type 0) → List A → Type 0
Each P [] = Unit {0}
Each P (x ∷ xs) = P x × Each P xs

-- Before the first member that is not above it.
abbrev pub insert_by {ℓ} : {A : Type ℓ} → (A → A → Bool) → A → List A → List A
insert_by above x [] = x ∷ []
insert_by above x (y ∷ ys) = if above y x then y ∷ insert_by above x ys else x ∷ y ∷ ys

-- A stable sort: `above` says that the second must stand behind the first.
unfoldable pub sort_by {ℓ} : {A : Type ℓ} → (A → A → Bool) → List A → List A
sort_by above [] = []
sort_by above (x ∷ xs) = insert_by above x (sort_by above xs)

module _ {ℓ} {A : Type ℓ} (P : A → Type 0) where
  pub Each-keep : (p : A → Bool) (xs : List A) → Each P xs → Each P (keep p xs)
  Each-keep p [] h = tt
  Each-keep p (x ∷ xs) (now, later) = elim (Bool-cases (p x)) [
    | inl t ↦ rw t (now, Each-keep p xs later)
    | inr f ↦ rw f (Each-keep p xs later)
  ]

  -- What the filter lets through.
  pub Each-keep_test : (p : A → Bool) (xs : List A) → Each (λ x. p x ≡ true) (keep p xs)
  Each-keep_test p [] = tt
  Each-keep_test p (x ∷ xs) = elim (Bool-cases (p x)) [
    | inl t ↦ rw t (t, Each-keep_test p xs)
    | inr f ↦ rw f (Each-keep_test p xs)
  ]

  pub Each-take : (n : ℕ) (xs : List A) → Each P xs → Each P (take n xs)
  Each-take zero xs h = tt
  Each-take (suc n) [] h = tt
  Each-take (suc n) (x ∷ xs) (now, later) = (now, Each-take n xs later)

  Each-insert_by :
      (above : A → A → Bool) (x : A) (ys : List A) → P x → Each P ys → Each P (insert_by above x ys)
  Each-insert_by above x [] h t = (h, tt)
  Each-insert_by above x (y ∷ ys) h (now, later) = elim (Bool-cases (above y x)) [
    | inl t ↦ rw t (now, Each-insert_by above x ys h later)
    | inr f ↦ rw f (h, (now, later))
  ]

  pub Each-sort_by : (above : A → A → Bool) (xs : List A) → Each P xs → Each P (sort_by above xs)
  unfolding sort_by
  Each-sort_by above [] h = tt
  Each-sort_by above (x ∷ xs) (now, later) =
      Each-insert_by above x (sort_by above xs) now (Each-sort_by above xs later)

pub Each-imp {ℓ} :
    {A : Type ℓ} (P Q : A → Type 0) → ((x : A) → P x → Q x) → (xs : List A) → Each P xs → Each Q xs
Each-imp P Q f [] h = tt
Each-imp P Q f (x ∷ xs) (now, later) = (f x now, Each-imp P Q f xs later)

-- The images of the members of a list are the members of its image.
abbrev pub ImageOf : {A B : Type 0} → (A → B) → List A → B → Type 0
ImageOf {A} f xs y = (x : A) × Memᴰ x xs × (f x ≡ y)

pub Each-map : {A B : Type 0} (f : A → B) (xs : List A) → Each (ImageOf f xs) (map f xs)
Each-map f [] = tt
Each-map f (x ∷ xs) = (
  (x, Memᴰ.head refl, refl),
  Each-imp (ImageOf f xs) (ImageOf f (x ∷ xs)) (λ y (z, m, e). (z, Memᴰ.tail m, e)) (map f xs)
      (Each-map f xs),
)
