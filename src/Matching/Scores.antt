-- ===== src/Matching/Scores.antt =====
-- What the scores of `app/domain/matching.py` are: between 0 and 1, the same both ways, and 1 for
-- nothing but the same text.
use claims_workbench_be.Common.{
  ℕ, ◌+◌, ◌*◌, ◌≤◌, Bool, true, false, ◌||◌, [], ◌∷◌, ◌≡◌, ◌≢◌, refl, sym, ◌∙◌, ap, subst, length,
  arith, nat_eq, list_eq, ◌==◌, if◌then◌else◌, eq_cases, Bool-cases, inl, inr, is_empty, ltb,
  beq_self,
}
use claims_workbench_be.References.{Text}
use claims_workbench_be.Matching.{Ratio, none_of, all_of, row_ratio, ratio}
use claims_workbench_be.Matching.Subsequence.{Subsequence, length-Subsequence, Subsequence-whole}
use claims_workbench_be.Matching.Lcs.{Common}
use claims_workbench_be.Matching.Rows.{count, count-longest}

-- What counts the same for both orders of two texts is bounded by either.
count_le : (a b : Text) → count a b ≤ count b a
count_le a b =
    let (zs, s, t, e) = (count-longest a b).0 in
    let bound = (count-longest b a).1 zs t s in omega arith

pub count_comm : (a b : Text) → count a b ≡ count b a
count_comm a b = let h = count_le a b in let k = count_le b a in omega arith

count_le_left : (a b : Text) → count a b ≤ length a
count_le_left a b =
    let (zs, s, t, e) = (count-longest a b).0 in let bound = length-Subsequence s in omega arith

-- Only the same text has all of its characters in common with a text.
count_whole : (a b : Text) → count a b ≡ length a → length a ≡ length b → a ≡ b
count_whole a b h k =
    let (zs, s, t, e) = (count-longest a b).0 in
    sym (Subsequence-whole s (e ∙ h)) ∙ Subsequence-whole t (e ∙ (h ∙ k))

-- The same ratio, or that of the two texts swapped.
abbrev Fair : Text → Text → Ratio → Type 0
Fair a b r = (r.over ≤ r.under) × (1 ≤ r.under) × (r.over ≡ r.under → a ≡ b)

row_ratio-Fair : (a b : Text) → is_empty a ≡ false → Fair a b (row_ratio a b)
row_ratio-Fair [] b n = let no : true ≡ false = n in cc
row_ratio-Fair (x ∷ a) b n =
    let h = count_le_left (x ∷ a) b in
    let k = count_le_left b (x ∷ a) in
    let c = count_comm (x ∷ a) b in
    (omega arith, omega arith, λ e. count_whole (x ∷ a) b (omega arith) (omega arith))

row_ratio_comm : (a b : Text) → row_ratio a b ≡ row_ratio b a
row_ratio_comm a b =
    ap (λ n. record { over = 2 * n; under = length a + length b }) (count_comm a b)
    ∙ ap (λ n. record { over = 2 * count b a; under = n })
        (let e : length a + length b ≡ length b + length a = omega arith in e)

either_order :
    (a b : Text) (c : Bool) → (if c then row_ratio b a else row_ratio a b) ≡ row_ratio a b
either_order a b true = row_ratio_comm b a
either_order a b false = refl

beq_comm : (a b : Text) → (a == b) ≡ (b == a)
beq_comm a b = elim (eq_cases a b) [
  | inl (t, same) ↦ t ∙ (sym (beq_self a) ∙ ap (λ c. c == a) same)
  | inr (f, n) ↦ elim (eq_cases b a) [
    | inl (t, same) ↦ absurd (n (sym same))
    | inr (g, m) ↦ f ∙ sym g
  ]
]

-- The score of two texts that are not empty, whichever is the longer.
ratio_cons :
    (a b : Text)
    → (is_empty a || is_empty b) ≡ false
    → ratio a b ≡ (if a == b then all_of else row_ratio a b)
unfolding ratio
ratio_cons a b n =
    rw n (ap (λ r. if a == b then all_of else r) (either_order a b (ltb (length a) (length b))))

or_comm : (p q : Bool) → (p || q) ≡ (q || p)
or_comm true true = refl
or_comm true false = refl
or_comm false true = refl
or_comm false false = refl

ratio_empty : (a b : Text) → (is_empty a || is_empty b) ≡ true → ratio a b ≡ none_of
unfolding ratio
ratio_empty a b t = rw t refl

-- The score does not depend on which text stands first.
pub ratio_comm : (a b : Text) → ratio a b ≡ ratio b a
ratio_comm a b = elim (Bool-cases (is_empty a || is_empty b)) [
  | inl t ↦ ratio_empty a b t ∙ sym (ratio_empty b a (or_comm (is_empty b) (is_empty a) ∙ t))
  | inr n ↦
      ratio_cons a b n
      ∙ (ap (λ t. if t then all_of else row_ratio a b) (beq_comm a b)
          ∙ (ap (λ r. if b == a then all_of else r) (row_ratio_comm a b)
              ∙ sym (ratio_cons b a (or_comm (is_empty b) (is_empty a) ∙ n))))
]

first_full : (a b : Text) → (is_empty a || is_empty b) ≡ false → is_empty a ≡ false
first_full [] b n = n
first_full (x ∷ a) b n = refl

none_of-Fair : (a b : Text) → Fair a b none_of
none_of-Fair a b = (omega arith, omega arith, λ e. absurd (omega arith))

ratio-cases : (a b : Text) → Fair a b (ratio a b)
ratio-cases a b = elim (Bool-cases (is_empty a || is_empty b)) [
  | inl t ↦ subst (Fair a b) (sym (ratio_empty a b t)) (none_of-Fair a b)
  | inr n ↦ subst (Fair a b) (sym (ratio_cons a b n)) (elim (eq_cases a b) [
    | inl (t, same) ↦ rw t (omega arith, omega arith, λ e. same)
    | inr (f, _) ↦ rw f (row_ratio-Fair a b (first_full a b n))
  ])
]

-- The score of two texts does not depend on their order, is between 0 and 1, and is 1 for the same
-- text alone.
pub ratio-Fair :
    (a b : Text)
    → (ratio a b ≡ ratio b a)
      × ((ratio a b).over ≤ (ratio a b).under)
      × (1 ≤ (ratio a b).under)
      × ((ratio a b).over ≡ (ratio a b).under → a ≡ b)
ratio-Fair a b = let (low, full, same) = ratio-cases a b in (ratio_comm a b, low, full, same)

-- The score of two texts that are not empty and differ is twice the length of a longest common
-- subsequence over the sum of their lengths: a subsequence of both has that length, and none is longer.
pub ratio-longest :
    (a b : Text)
    → (is_empty a || is_empty b) ≡ false
    → a ≢ b
    → (n : ℕ) × (ratio a b ≡ record { over = 2 * n; under = length a + length b })
      × Common a b n
      × ((zs : Text) → Subsequence zs a → Subsequence zs b → length zs ≤ n)
ratio-longest a b full differ = elim (eq_cases a b) [
  | inl (_, same) ↦ absurd (differ same)
  | inr (f, _) ↦
      let (shown, bound) = count-longest a b in
      (count a b, ratio_cons a b full ∙ rw f refl, shown, bound)
]
