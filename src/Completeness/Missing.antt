-- ===== src/Completeness/Missing.antt =====
-- The critical fields that `assess_completeness` of `app/domain/assessment.py` reports missing.
use claims_workbench_be.Common.{
  ℕ, ◌≡◌, refl, ◌↔◌, Bool, true, ◌||◌, not, List, [], ◌∷◌, keep, map, sym, ◌&&◌, all, String,
  Option, arith, ◌∙◌, ap,
}
use claims_workbench_be.Model.Case.{FnolCase}
use claims_workbench_be.Rules.RequiredFields.{RequiredField, required_fields}
use claims_workbench_be.Completeness.{
  FieldStatus, FieldState, field_status, is_present, assess_completeness, case_line,
  missing_critical,
}
use claims_workbench_be.Completeness.Score.{listed, assess_completeness_score}

abbrev is_critical : FieldStatus → Bool
is_critical s = s.critical

abbrev satisfied : (RequiredField → Bool) → RequiredField → Bool
satisfied here q = not q.critical || here q

none_listed :
    (here : RequiredField → Bool) (qs : List RequiredField)
    → (listed FieldState.missing (λ q. q.critical && not (here q)) qs ≡ [])
      ↔ (all (satisfied here) qs ≡ true)
none_listed here [] = (λ e. refl, λ e. refl)
none_listed here (q ∷ qs) =
    let later = none_listed here qs in (λ e. ground (arith, later.0), λ e. ground (arith, later.1))

-- The entries of the missing fields, filtered by whether they are critical.
keep-listed :
    (p : RequiredField → Bool) (qs : List RequiredField)
    → keep is_critical (listed FieldState.missing p qs)
      ≡ listed FieldState.missing (λ q. q.critical && p q) qs
keep-listed p [] = refl
keep-listed p (q ∷ qs) = ground (arith, keep-listed p qs)

module _ (strip : String → String) (threshold : ℕ) (c : FnolCase) (document_count : ℕ)
    (party_roles : List String) (field_confidences : List (String × Option ℕ)) where
  -- The critical fields that are reported missing are, in their order, the fields that are critical for
  -- the case's line of business and are not present on it; so none is reported exactly when every
  -- critical field is present.
  pub missing_critical_lem :
      let r = assess_completeness strip threshold c document_count party_roles field_confidences in
      let required = required_fields (case_line c) in
      (missing_critical r
        ≡ map
            (λ q. field_status q FieldState.missing)
            (keep
              (λ q. q.critical && not (is_present strip c q document_count party_roles))
              required))
      × ((missing_critical r ≡ []) ↔ (
          all (λ q. not q.critical || is_present strip c q document_count party_roles) required
          ≡ true))
  unfolding missing_critical
  missing_critical_lem =
      let score =
        assess_completeness_score strip threshold c document_count party_roles field_confidences in
      let here = λ (q : RequiredField). is_present strip c q document_count party_roles in
      let qs = required_fields (case_line c) in
      let e = ap (keep is_critical) score.5 ∙ keep-listed (λ q. not (here q)) qs in
      let law = none_listed here qs in (e, (λ h. law.0 (sym e ∙ h), λ h. e ∙ law.1 h))
