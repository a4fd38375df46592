-- ===== src/Matching/Lcs.antt =====
-- The longest common subsequence of two texts, by recursion, and that it is the longest.
use claims_workbench_be.Common.{
  ℕ, ◌+◌, ◌≤◌, Bool, true, false, [], ◌∷◌, ◌≡◌, ◌≢◌, refl, subst, length, arith, nat_eq, ◌==◌,
  if◌then◌else◌, eq_cases, inl, inr, leb,
}
use claims_workbench_be.References.{Text}
use claims_workbench_be.Matching.{max}
use claims_workbench_be.Matching.Subsequence.{
  Subsequence, done, skip, take, Subsequence-nil, Subsequence-drop, length-Subsequence,
}

pub left_le_max : (a b : ℕ) → a ≤ max a b
left_le_max a b = ground arith

pub right_le_max : (a b : ℕ) → b ≤ max a b
right_le_max a b = ground arith

unfoldable pub lcs : Text → Text → ℕ
lcs [] ys = 0
lcs (x ∷ xs) [] = 0
lcs (x ∷ xs) (y ∷ ys) = if x == y then lcs xs ys + 1 else max (lcs xs (y ∷ ys)) (lcs (x ∷ xs) ys)

pub lcs-nil : (xs : Text) → lcs xs [] ≡ 0
unfolding lcs
lcs-nil [] = refl
lcs-nil (x ∷ xs) = refl

-- A common subsequence of a length.
abbrev pub Common : Text → Text → ℕ → Type 0
Common xs ys n = (zs : Text) × Subsequence zs xs × Subsequence zs ys × (length zs ≡ n)

-- One step of the recursion, for a greatest length of each kind.
abbrev step : ℕ → ℕ → ℕ → ℕ → ℕ → ℕ
step x y diagonal above left = if x == y then diagonal + 1 else max above left

Common-step :
    (x y : ℕ) (xs ys : Text) (d a l : ℕ)
    → Common xs ys d
    → Common xs (y ∷ ys) a
    → Common (x ∷ xs) ys l
    → Common (x ∷ xs) (y ∷ ys) (step x y d a l)
Common-step x y xs ys d a l (zs, s, t, e) (us, s1, t1, e1) (vs, s2, t2, e2) = elim (eq_cases x y) [
  | inl (t', same) ↦
      rw t' (x ∷ zs, take s, subst (λ c. Subsequence (x ∷ zs) (c ∷ ys)) same (take t), omega arith)
  | inr (f, _) ↦ rw f (greater (leb l a) refl)
]
  where
    greater : (b : Bool) → leb l a ≡ b → Common (x ∷ xs) (y ∷ ys) (if b then a else l)
    greater true h = (us, skip s1, t1, e1)
    greater false h = (vs, s2, skip t2, e2)

pub lcs-Common : (xs ys : Text) → Common xs ys (lcs xs ys)
unfolding lcs
lcs-Common [] ys = ([], done, Subsequence-nil ys, refl)
lcs-Common (x ∷ xs) [] = ([], Subsequence-nil (x ∷ xs), done, refl)
lcs-Common (x ∷ xs) (y ∷ ys) =
    Common-step x y xs ys (lcs xs ys) (lcs xs (y ∷ ys)) (lcs (x ∷ xs) ys) (lcs-Common xs ys)
      (lcs-Common xs (y ∷ ys)) (lcs-Common (x ∷ xs) ys)

-- No common subsequence is longer than `n`.
abbrev Bounds : Text → Text → ℕ → Type 0
Bounds xs ys n = (zs : Text) → Subsequence zs xs → Subsequence zs ys → length zs ≤ n

Bounds-equal : (x y : ℕ) (xs ys : Text) (d : ℕ) → Bounds xs ys d → Bounds (x ∷ xs) (y ∷ ys) (d + 1)
Bounds-equal x y xs ys d h [] s t = omega arith
Bounds-equal x y xs ys d h (z ∷ zs) s t =
    let bound = h zs (Subsequence-drop s) (Subsequence-drop t) in omega arith

Bounds-unequal :
    (x y : ℕ) (xs ys : Text) (a l : ℕ)
    → x ≢ y
    → Bounds xs (y ∷ ys) a
    → Bounds (x ∷ xs) ys l
    → Bounds (x ∷ xs) (y ∷ ys) (max a l)
Bounds-unequal x y xs ys a l n above left zs (skip s) t =
    let bound = above zs s t in let great = left_le_max a l in omega arith
Bounds-unequal x y xs ys a l n above left zs (take s) (skip t) =
    let bound = left _ (take s) t in let great = right_le_max a l in omega arith
Bounds-unequal x y xs ys a l n above left zs (take s) (take t) = absurd (n refl)

Bounds-step :
    (x y : ℕ) (xs ys : Text) (d a l : ℕ)
    → Bounds xs ys d
    → Bounds xs (y ∷ ys) a
    → Bounds (x ∷ xs) ys l
    → Bounds (x ∷ xs) (y ∷ ys) (step x y d a l)
Bounds-step x y xs ys d a l diagonal above left = elim (eq_cases x y) [
  | inl (t, _) ↦ rw t (Bounds-equal x y xs ys d diagonal)
  | inr (f, n) ↦ rw f (Bounds-unequal x y xs ys a l n above left)
]

Bounds-nil : (xs : Text) → Bounds xs [] 0
Bounds-nil xs zs s t = length-Subsequence t

pub lcs-Bounds : (xs ys : Text) → Bounds xs ys (lcs xs ys)
unfolding lcs
lcs-Bounds [] ys = λ zs s t. length-Subsequence s
lcs-Bounds (x ∷ xs) [] = Bounds-nil (x ∷ xs)
lcs-Bounds (x ∷ xs) (y ∷ ys) =
    Bounds-step x y xs ys (lcs xs ys) (lcs xs (y ∷ ys)) (lcs (x ∷ xs) ys) (lcs-Bounds xs ys)
      (lcs-Bounds xs (y ∷ ys)) (lcs-Bounds (x ∷ xs) ys)
