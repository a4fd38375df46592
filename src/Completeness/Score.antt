-- ===== src/Completeness/Score.antt =====
-- The completeness score of `app/domain/assessment.py`: its bounds, when it is full, and what the
-- three lists account for.
use claims_workbench_be.Common.{
  ℕ, ◌+◌, ◌≤◌, ◌<◌, ◌≡◌, refl, ◌↔◌, Bool, true, false, ◌&&◌, not, List, [], ◌∷◌, ◌++◌, map, keep,
  all, sym, ap, ◌∙◌, if◌then◌else◌, Bool-cases, inl, inr, arith, Option, String, and_true, some,
  none,
}
use mathlib.Core.List.{append-nil, append_assoc}
use claims_workbench_be.Enums.Assessment.{LineOfBusiness}
use claims_workbench_be.Model.Case.{FnolCase}
use claims_workbench_be.Rules.RequiredFields.{RequiredField, required_fields}
use claims_workbench_be.Completeness.{
  FieldState, FieldStatus, field_status, CompletenessResult, weight_of, uncertain_credit,
  tally_field, tally, empty_result, is_present, is_uncertain, get_path, assess_completeness,
  case_line,
}

-- The members of a filter as entries of one of the lists.
abbrev pub listed : FieldState → (RequiredField → Bool) → List RequiredField → List FieldStatus
listed state p qs = map (λ q. field_status q state) (keep p qs)

-- What a round of the loop adds to a list.
abbrev entry : Bool → RequiredField → FieldState → List FieldStatus
entry b q state = if b then field_status q state ∷ [] else []

tally_field-lists :
    (q : RequiredField) (h u : Bool) (r : CompletenessResult)
    → ((tally_field q h u r).present ≡ r.present ++ entry (h && not u) q FieldState.present)
      × ((tally_field q h u r).missing ≡ r.missing ++ entry (not h) q FieldState.missing)
      × ((tally_field q h u r).uncertain ≡ r.uncertain ++ entry (h && u) q FieldState.uncertain)
tally_field-lists q false u r = (sym (append-nil _), refl, sym (append-nil _))
tally_field-lists q true true r = (sym (append-nil _), sym (append-nil _), refl)
tally_field-lists q true false r = (refl, sym (append-nil _), sym (append-nil _))

-- A list that grows at the end by the entries of a filter.
listed-cons :
    (state : FieldState) (p : RequiredField → Bool) (q : RequiredField) (qs : List RequiredField)
    (xs : List FieldStatus)
    → (xs ++ entry (p q) q state) ++ listed state p qs ≡ xs ++ listed state p (q ∷ qs)
listed-cons state p q qs xs = elim (Bool-cases (p q)) [
  | inl t ↦ rw t (append_assoc xs (field_status q state ∷ []) (listed state p qs))
  | inr f ↦ rw f (ap (λ ys. ys ++ listed state p qs) (append-nil xs))
]

tally-lists :
    (here unsure : RequiredField → Bool) (qs : List RequiredField) (r : CompletenessResult)
    → let t = tally here unsure qs r in
      (t.present ≡ r.present ++ listed FieldState.present (λ q. here q && not (unsure q)) qs)
      × (t.missing ≡ r.missing ++ listed FieldState.missing (λ q. not (here q)) qs)
      × (t.uncertain ≡ r.uncertain ++ listed FieldState.uncertain (λ q. here q && unsure q) qs)
unfolding tally
tally-lists here unsure [] r = (sym (append-nil _), sym (append-nil _), sym (append-nil _))
tally-lists here unsure (q ∷ qs) r =
    let (p, m, u) = tally_field-lists q (here q) (unsure q) r in
    let (ps, ms, us) = tally-lists here unsure qs (tally_field q (here q) (unsure q) r) in
    (
      ps ∙ rw p (listed-cons FieldState.present (λ q. here q && not (unsure q)) q qs r.present),
      ms ∙ rw m (listed-cons FieldState.missing (λ q. not (here q)) q qs r.missing),
      us ∙ rw u (listed-cons FieldState.uncertain (λ q. here q && unsure q) q qs r.uncertain),
    )

-- The two sums as plain recursions.
abbrev credit : RequiredField → Bool → Bool → ℕ
credit q false unsure = 0
credit q true true = uncertain_credit q
credit q true false = weight_of q

module _ (here unsure : RequiredField → Bool) where
  abbrev earned_by : List RequiredField → ℕ
  earned_by [] = 0
  earned_by (q ∷ qs) = credit q (here q) (unsure q) + earned_by qs

  abbrev available_by : List RequiredField → ℕ
  available_by [] = 0
  available_by (q ∷ qs) = weight_of q + available_by qs

  tally_field-earned :
      (q : RequiredField) (h u : Bool) (r : CompletenessResult)
      → ((tally_field q h u r).earned ≡ r.earned + credit q h u)
        × ((tally_field q h u r).available ≡ r.available + weight_of q)
  tally_field-earned q false u r = (omega arith, refl)
  tally_field-earned q true true r = (refl, refl)
  tally_field-earned q true false r = (refl, refl)

  tally-earned :
      (qs : List RequiredField) (r : CompletenessResult)
      → ((tally here unsure qs r).earned ≡ r.earned + earned_by qs)
        × ((tally here unsure qs r).available ≡ r.available + available_by qs)
  unfolding tally
  tally-earned [] r = omega arith
  tally-earned (q ∷ qs) r = omega (
    arith,
    tally_field-earned q (here q) (unsure q) r,
    tally-earned qs (tally_field q (here q) (unsure q) r),
  )

  credit_full :
      (q : RequiredField) (h u : Bool)
      → (credit q h u ≤ weight_of q) × ((credit q h u ≡ weight_of q) ↔ ((h && not u) ≡ true))
  credit_full q h u = (ground arith, (λ e. ground arith, λ e. ground arith))

  earned_by_full :
      (qs : List RequiredField)
      → (earned_by qs ≤ available_by qs)
        × ((earned_by qs ≡ available_by qs) ↔ (all (λ q. here q && not (unsure q)) qs ≡ true))
  earned_by_full [] = (omega arith, (λ e. refl, λ e. refl))
  earned_by_full (q ∷ qs) =
      let (bound, iff) = credit_full q (here q) (unsure q) in
      let (rest_bound, rest_iff) = earned_by_full qs in
      (
        omega arith,
        (
          λ e. rw (iff.0 (omega arith)) (rest_iff.0 (omega arith)),
          λ a.
              let (now, later) = and_true (here q && not (unsure q)) _ a in
              omega (arith, iff.1 now, rest_iff.1 later),
        ),
      )

available_pos :
    (here unsure : RequiredField → Bool) (line : Option LineOfBusiness)
    → 0 < available_by here unsure (required_fields line)
unfolding required_fields
available_pos here unsure none = omega arith
available_pos here unsure (some line) = omega arith

module _ (strip : String → String) (threshold : ℕ) (c : FnolCase) (document_count : ℕ)
    (party_roles : List String) (field_confidences : List (String × Option ℕ)) where
  -- The two tests that a round of the loop makes.
  abbrev pub is_here : RequiredField → Bool
  is_here q = is_present strip c q document_count party_roles

  abbrev pub is_unsure : RequiredField → Bool
  is_unsure q =
      is_uncertain threshold
        (elim (get_path q.path field_confidences) [ none ↦ none | some conf ↦ conf ])

  -- The score divides by a positive number, lies between 0 and 1, and is 1 exactly when every field
  -- that the line of business requires is present and read with enough confidence. The three
  -- lists name the required fields in their order: as present those that are there and read with
  -- enough confidence, as uncertain those that are there and read with less, as missing the others.
  pub assess_completeness_score :
      let r = assess_completeness strip threshold c document_count party_roles field_confidences in
      let required = required_fields (case_line c) in
      (0 < r.available)
      × (r.earned ≤ r.available)
      × ((r.earned ≡ r.available) ↔ (all (λ q. is_here q && not (is_unsure q)) required ≡ true))
      × (r.present ≡ listed FieldState.present (λ q. is_here q && not (is_unsure q)) required)
      × (r.uncertain ≡ listed FieldState.uncertain (λ q. is_here q && is_unsure q) required)
      × (r.missing ≡ listed FieldState.missing (λ q. not (is_here q)) required)
  unfolding assess_completeness
  assess_completeness_score =
      let line = case_line c in
      let qs = required_fields line in
      let sums = tally-earned is_here is_unsure qs empty_result in
      let lists = tally-lists is_here is_unsure qs empty_result in
      let full = earned_by_full is_here is_unsure qs in
      (
        omega (arith, sums, available_pos is_here is_unsure line),
        omega (arith, sums, full.0),
        (λ e. full.1.0 (omega (arith, sums)), λ a. omega (arith, sums, full.1.1 a)),
        lists.0,
        lists.2,
        lists.1,
      )
