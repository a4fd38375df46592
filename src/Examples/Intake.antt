-- ===== src/Examples/Intake.antt =====
-- The theorems on exceptions and completeness, applied to the fixtures.
use claims_workbench_be.Common.{
  ℕ, ◌≤◌, ◌<◌, true, false, not, ◌&&◌, ◌||◌, ◌≡◌, refl, ◌≢◌, ◌↔◌, List, [], ◌∷◌, ◌∈?◌,
  if◌then◌else◌, all, map, keep, String, Option, some, nat_eq,
}
use claims_workbench_be.Common.Table.{find, Unique, pair_eq}
use claims_workbench_be.Enums.Intake.{FnolStatus, ExceptionCode, exception_code_eq}
use claims_workbench_be.Lifecycle.{is_terminal, derive_status}
use claims_workbench_be.Repository.Exceptions.{exception_key, standing, cleared, raised_standing}
use claims_workbench_be.Rules.RequiredFields.{required_fields}
use claims_workbench_be.Completeness.{
  FieldState, field_status, assess_completeness, case_line, is_present, missing_critical,
}
use claims_workbench_be.Completeness.Score.{is_here, is_unsure, listed, assess_completeness_score}
use claims_workbench_be.Completeness.Missing.{missing_critical_lem}
use claims_workbench_be.Exceptions.{collect, codes, evaluate}
use claims_workbench_be.Exceptions.Persisted.{evaluate-standing}
use claims_workbench_be.Exceptions.Ready.{nothing_blocks, derive_status-collect_iff}
use claims_workbench_be.Examples.Fixtures.{notice, desk, settings, findings}

desk-Unique : Unique exception_key desk.exceptions
unfolding find
desk-Unique = (refl, (refl, tt))

abbrev critical : ExceptionCode
critical = ExceptionCode.missing_critical_information

abbrev low : ExceptionCode
low = ExceptionCode.low_extraction_confidence

evaluate-standing_example :
    let (raised, db') = evaluate settings notice findings desk in
    (raised ≡ collect settings notice findings)
    × ((d : ExceptionCode)
        → standing 1 d db' ≡ (
            if d ∈? codes raised
            then raised_standing (standing 1 d desk)
            else cleared (standing 1 d desk)))
    × ((j : ℕ) (d : ExceptionCode) → 1 ≢ j → standing j d db' ≡ standing j d desk)
    × Unique exception_key db'.exceptions
evaluate-standing_example = evaluate-standing settings notice findings desk desk-Unique

derive_status-collect_iff_example :
    (derive_status FnolStatus.needs_review (codes (collect settings notice findings)) false
      ≡ FnolStatus.ready_for_claim)
    ↔ (nothing_blocks settings notice findings ≡ true)
unfolding is_terminal
derive_status-collect_iff_example =
    derive_status-collect_iff settings notice findings FnolStatus.needs_review refl

abbrev confidences : List (String × Option ℕ)
confidences = ("loss.date_of_loss", some 40) ∷ []

assess_completeness_score_example :
    let r = assess_completeness (λ s. s) 60 notice 2 ("claimant" ∷ []) confidences in
    let required = required_fields (case_line notice) in
    let here = is_here (λ s. s) 60 notice 2 ("claimant" ∷ []) confidences in
    let unsure = is_unsure (λ s. s) 60 notice 2 ("claimant" ∷ []) confidences in
    (0 < r.available)
    × (r.earned ≤ r.available)
    × ((r.earned ≡ r.available) ↔ (all (λ q. here q && not (unsure q)) required ≡ true))
    × (r.present ≡ listed FieldState.present (λ q. here q && not (unsure q)) required)
    × (r.uncertain ≡ listed FieldState.uncertain (λ q. here q && unsure q) required)
    × (r.missing ≡ listed FieldState.missing (λ q. not (here q)) required)
assess_completeness_score_example =
    assess_completeness_score (λ s. s) 60 notice 2 ("claimant" ∷ []) confidences

missing_critical_lem_example :
    let r = assess_completeness (λ s. s) 60 notice 2 ("claimant" ∷ []) confidences in
    let required = required_fields (case_line notice) in
    (missing_critical r
      ≡ map
          (λ q. field_status q FieldState.missing)
          (keep
            (λ q. q.critical && not (is_present (λ s. s) notice q 2 ("claimant" ∷ [])))
            required))
    × ((missing_critical r ≡ []) ↔ (
        all (λ q. not q.critical || is_present (λ s. s) notice q 2 ("claimant" ∷ [])) required
        ≡ true))
missing_critical_lem_example =
    missing_critical_lem (λ s. s) 60 notice 2 ("claimant" ∷ []) confidences
