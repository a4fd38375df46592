-- ===== src/Matching/Subsequence.antt =====
-- Common subsequences of two texts, the description of what `sequence_ratio` counts.
use claims_workbench_be.Common.{ℕ, ◌+◌, ◌≤◌, [], ◌∷◌, ◌++◌, ◌≡◌, refl, ◌∙◌, ap, length, arith}
use claims_workbench_be.References.{Text}

-- `Subsequence zs xs`: the characters of `zs` are some of those of `xs`, in their order.
pub data Subsequence : Text → Text → Type 0 where
  done : Subsequence [] []
  skip : {zs xs : Text} {x : ℕ} → Subsequence zs xs → Subsequence zs (x ∷ xs)
  take : {zs xs : Text} {x : ℕ} → Subsequence zs xs → Subsequence (x ∷ zs) (x ∷ xs)

pub Subsequence-nil : (xs : Text) → Subsequence [] xs
Subsequence-nil [] = done
Subsequence-nil (x ∷ xs) = skip (Subsequence-nil xs)

pub Subsequence-tail : {z : ℕ} {zs xs : Text} → Subsequence (z ∷ zs) xs → Subsequence zs xs
Subsequence-tail (skip s) = skip (Subsequence-tail s)
Subsequence-tail (take s) = skip s

pub Subsequence-drop : {z x : ℕ} {zs xs : Text} → Subsequence (z ∷ zs) (x ∷ xs) → Subsequence zs xs
Subsequence-drop (skip s) = Subsequence-tail s
Subsequence-drop (take s) = s

pub length-Subsequence : {zs xs : Text} → Subsequence zs xs → length zs ≤ length xs
length-Subsequence done = omega arith
length-Subsequence (skip s) = let h = length-Subsequence s in omega arith
length-Subsequence (take s) = let h = length-Subsequence s in omega arith

-- A subsequence that is as long as the text is the text.
pub Subsequence-whole : {zs xs : Text} → Subsequence zs xs → length zs ≡ length xs → zs ≡ xs
Subsequence-whole done h = refl
Subsequence-whole (skip s) h = let short = length-Subsequence s in absurd (omega arith)
Subsequence-whole (take {x = x} s) h = ap (λ t. x ∷ t) (Subsequence-whole s (omega arith))

-- The text backwards, before `acc`.
abbrev pub rev_onto : Text → Text → Text
rev_onto [] acc = acc
rev_onto (x ∷ xs) acc = rev_onto xs (x ∷ acc)

pub Subsequence-rev_onto :
    {zs xs ws ys : Text}
    → Subsequence zs xs
    → Subsequence ws ys
    → Subsequence (rev_onto zs ws) (rev_onto xs ys)
Subsequence-rev_onto done t = t
Subsequence-rev_onto (skip s) t = Subsequence-rev_onto s (skip t)
Subsequence-rev_onto (take s) t = Subsequence-rev_onto s (take t)

rev_onto-rev_onto : (xs ys zs : Text) → rev_onto (rev_onto xs ys) zs ≡ rev_onto ys (xs ++ zs)
rev_onto-rev_onto [] ys zs = refl
rev_onto-rev_onto (x ∷ xs) ys zs = rev_onto-rev_onto xs (x ∷ ys) zs

append_nil : (xs : Text) → xs ++ [] ≡ xs
append_nil [] = refl
append_nil (x ∷ xs) = ap (λ t. x ∷ t) (append_nil xs)

pub rev_onto_invol : (xs : Text) → rev_onto (rev_onto xs []) [] ≡ xs
rev_onto_invol xs = rev_onto-rev_onto xs [] [] ∙ append_nil xs

pub length-rev_onto : (xs ys : Text) → length (rev_onto xs ys) ≡ length xs + length ys
length-rev_onto [] ys = omega arith
length-rev_onto (x ∷ xs) ys = let h = length-rev_onto xs (x ∷ ys) in omega arith
