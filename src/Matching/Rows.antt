-- ===== src/Matching/Rows.antt =====
-- The two rows of `sequence_ratio` of `app/domain/matching.py` hold the lengths of longest common
-- subsequences.
use claims_workbench_be.Common.{
  ℕ, ◌+◌, ◌≤◌, List, [], ◌∷◌, ◌≡◌, refl, sym, ◌∙◌, ap, subst, length, arith, nat_eq, ◌==◌,
  if◌then◌else◌,
}
use claims_workbench_be.References.{Text}
use claims_workbench_be.Matching.{max, head_or, next_cells, last_row, zeros, last_cell}
use claims_workbench_be.Matching.Subsequence.{
  Subsequence, done, rev_onto, Subsequence-rev_onto, rev_onto_invol, length-rev_onto,
}
use claims_workbench_be.Matching.Lcs.{lcs, lcs-nil, Common, lcs-Common, lcs-Bounds}

-- The row of a text `ra` read backwards, from the prefix `rb` of the other text on.
abbrev row : Text → Text → Text → List ℕ
row ra rb [] = lcs ra rb ∷ []
row ra rb (y ∷ b) = lcs ra rb ∷ row ra (y ∷ rb) b

head_or-row : (ra rb b : Text) → head_or (row ra rb b) 0 ≡ lcs ra rb
head_or-row ra rb [] = refl
head_or-row ra rb (y ∷ b) = refl

next_cells-row :
    (x : ℕ) (ra rb b : Text)
    → lcs (x ∷ ra) rb ∷ next_cells x (lcs (x ∷ ra) rb) (row ra rb b) b ≡ row (x ∷ ra) rb b
unfolding next_cells lcs
next_cells-row x ra rb [] = refl
next_cells-row x ra rb (y ∷ b) =
    let cell : ℕ → ℕ = λ above. if x == y then lcs ra rb + 1 else max above (lcs (x ∷ ra) rb) in
    ap (λ above. lcs (x ∷ ra) rb ∷ cell above ∷ next_cells x (cell above) (row ra (y ∷ rb) b) b)
      (head_or-row ra (y ∷ rb) b)
    ∙ ap (λ cells. lcs (x ∷ ra) rb ∷ cells) (next_cells-row x ra (y ∷ rb) b)

zeros-row : (rb b : Text) → zeros b ≡ row [] rb b
unfolding lcs
zeros-row rb [] = refl
zeros-row rb (y ∷ b) = ap (λ t. 0 ∷ t) (zeros-row (y ∷ rb) b)

last_row-row : (ra a b : Text) → last_row (row ra [] b) a b ≡ row (rev_onto a ra) [] b
unfolding last_row
last_row-row ra [] b = refl
last_row-row ra (x ∷ a) b =
    ap (λ r. last_row r a b)
      (ap (λ n. n ∷ next_cells x n (row ra [] b) b) (sym (lcs-nil (x ∷ ra)))
        ∙ next_cells-row x ra [] b)
    ∙ last_row-row (x ∷ ra) a b

last_cell-row : (ra rb b : Text) → last_cell (row ra rb b) ≡ lcs ra (rev_onto b rb)
last_cell-row ra rb [] = refl
last_cell-row ra rb (y ∷ []) = refl
last_cell-row ra rb (y ∷ z ∷ b) = last_cell-row ra (y ∷ rb) (z ∷ b)

-- What the loops count, for two texts.
abbrev pub count : Text → Text → ℕ
count a b = last_cell (last_row (zeros b) a b)

count-lcs : (a b : Text) → count a b ≡ lcs (rev_onto a []) (rev_onto b [])
count-lcs a b =
    ap (λ r. last_cell (last_row r a b)) (zeros-row [] b)
    ∙ (ap last_cell (last_row-row [] a b) ∙ last_cell-row (rev_onto a []) [] b)

-- The loops find the length of a longest common subsequence: there is one of that length, and none is
-- longer.
pub count-longest :
    (a b : Text)
    → Common a b (count a b)
      × ((zs : Text) → Subsequence zs a → Subsequence zs b → length zs ≤ count a b)
count-longest a b = (shown, bound)
  where
    shown : Common a b (count a b)
    shown =
        let (zs, s, t, e) = lcs-Common (rev_onto a []) (rev_onto b []) in
        (
          rev_onto zs [],
          subst (λ x. Subsequence (rev_onto zs []) x) (rev_onto_invol a)
              (Subsequence-rev_onto s done),
          subst (λ x. Subsequence (rev_onto zs []) x) (rev_onto_invol b)
              (Subsequence-rev_onto t done),
          let n = length-rev_onto zs [] in let m = count-lcs a b in omega arith,
        )

    bound : (zs : Text) → Subsequence zs a → Subsequence zs b → length zs ≤ count a b
    bound zs s t =
        let h =
          lcs-Bounds (rev_onto a []) (rev_onto b []) (rev_onto zs []) (Subsequence-rev_onto s done)
            (Subsequence-rev_onto t done) in
        let n = length-rev_onto zs [] in let m = count-lcs a b in omega arith
