-- ===== src/Assessment/Coverage/Verdict.antt =====
-- When `assess_coverage` of `app/domain/assessment.py` says that a loss is likely covered.
use claims_workbench_be.Common.{
  ℕ, Bool, true, false, ◌||◌, Option, none, some, List, [], ◌∷◌, ◌++◌, any, ◌≡◌, ◌↔◌, refl, sym,
  ◌∙◌, ap, ltb, arith, Bool-cases, inl, inr, string_eq, or_false,
}
use claims_workbench_be.Enums.Assessment.{CoverageIndicator}
use claims_workbench_be.Model.Case.{Attribute, FnolCase, as_number, as_stamp}
use claims_workbench_be.Model.Claims.{Policy}
use claims_workbench_be.Matching.{PythonWords}
use claims_workbench_be.PolicyMatch.{in_force_on}
use claims_workbench_be.Assessment.Coverage.{
  CheckState, CoverageCheck, check, in_force_state, limit_state, needs_attention, is_attention,
  open_verdict, coverage_verdict, deductible_check, peril_state, location_state, status_state,
  checks_of, assess_coverage,
}

-- What a likely cover takes, of what the verdict looks at.
abbrev Clear : Bool → Bool → Option Bool → CheckState → Type 0
Clear attended confirmed in_force peril =
    (in_force ≡ some true) × (peril ≡ CheckState.pass) × (attended ≡ false) × (confirmed ≡ true)

open_verdict_iff :
    (checks : List CoverageCheck) (confirmed : Bool)
    → ((open_verdict checks confirmed).indicator ≡ CoverageIndicator.likely_covered)
      ↔ ((any is_attention checks ≡ false) × (confirmed ≡ true))
open_verdict_iff checks confirmed = elim (Bool-cases (any is_attention checks)) [
  | inl t ↦ (
    λ e.
        let no : CoverageIndicator.review_required ≡ CoverageIndicator.likely_covered = rw t at e in
        absurd cc,
    λ h. let no : true ≡ false = sym t ∙ h.0 in absurd cc,
  )
  | inr f ↦ elim (Bool-cases confirmed) [
    | inl y ↦ (λ e. (f, y), λ h. rw f (rw y refl))
    | inr n ↦ (
      λ e.
          let no : CoverageIndicator.review_required ≡ CoverageIndicator.likely_covered =
            rw (f, n) at e in
          absurd cc,
      λ h. let no : true ≡ false = sym h.1 ∙ n in absurd cc,
    )
  ]
]

-- Two things of which neither holds.
neither : {A B : Type 0} → (A → ⊥) → (B → ⊥) → A ↔ B
neither n m = (λ a. absurd (n a), λ b. absurd (m b))

without : {a b : Bool} {peril : CheckState} → Clear a b none peril → ⊥
without h = let no : none ≡ some true = h.0 in cc

coverage_verdict_iff :
    (checks : List CoverageCheck) (confirmed : Bool) (in_force : Option Bool) (peril : CheckState)
    → (needs_attention peril ≡ true → any is_attention checks ≡ true)
    → ((coverage_verdict checks confirmed in_force peril).indicator
        ≡ CoverageIndicator.likely_covered)
      ↔ Clear (any is_attention checks) confirmed in_force peril
unfolding coverage_verdict
coverage_verdict_iff checks confirmed (some true) CheckState.pass law =
    let (to, from) = open_verdict_iff checks confirmed in
    (λ e. (refl, refl, (to e).0, (to e).1), λ h. from (h.2, h.3))
coverage_verdict_iff checks confirmed (some true) CheckState.attention law =
    let (to, from) = open_verdict_iff checks confirmed in
    neither (λ e. let no : true ≡ false = sym (law refl) ∙ (to e).0 in absurd cc)
      (λ h. let no : CheckState.attention ≡ CheckState.pass = h.1 in absurd cc)
coverage_verdict_iff checks confirmed (some true) CheckState.fail law =
    neither (λ e. absurd cc) (λ h. let no : CheckState.fail ≡ CheckState.pass = h.1 in absurd cc)
coverage_verdict_iff checks confirmed (some true) CheckState.unknown law =
    neither (λ e. absurd cc) (λ h. let no : CheckState.unknown ≡ CheckState.pass = h.1 in absurd cc)
coverage_verdict_iff checks confirmed (some false) peril law =
    neither (λ e. absurd cc) (λ h. let no : some false ≡ some true = h.0 in absurd cc)
coverage_verdict_iff checks confirmed none CheckState.pass law = neither (λ e. absurd cc) without
coverage_verdict_iff checks confirmed none CheckState.attention law =
    neither (λ e. absurd cc) without
coverage_verdict_iff checks confirmed none CheckState.fail law = neither (λ e. absurd cc) without
coverage_verdict_iff checks confirmed none CheckState.unknown law = neither (λ e. absurd cc) without

attended_tests :
    (st pe li lo : Bool)
    → pe ≡ false
    → ((st || (pe || (li || lo))) ≡ false) ↔ ((st ≡ false) × (li ≡ false) × (lo ≡ false))
attended_tests st pe li lo h = (λ e. ground arith, λ e. ground arith)

in_force_quiet : (o : Option Bool) → needs_attention (in_force_state o) ≡ false
in_force_quiet none = refl
in_force_quiet (some true) = refl
in_force_quiet (some false) = refl

deductible_quiet :
    (o : Option ℕ) (checks : List CoverageCheck)
    → any is_attention (deductible_check o ++ checks) ≡ any is_attention checks
deductible_quiet none checks = refl
deductible_quiet (some n) checks = elim (Bool-cases (ltb 0 n)) [
  | inl t ↦ rw t refl
  | inr f ↦ rw f refl
]

module _ (py : PythonWords) (c : FnolCase) (p : Policy) where
  abbrev pub limit_check : CheckState
  limit_check =
      limit_state (as_number (c.column Attribute.estimated_loss_minor)) p.limit_amount_minor

  attended_lem : any is_attention (checks_of py c p) ≡ (
      needs_attention (status_state py p)
      || (needs_attention (peril_state py c p)
          || (needs_attention limit_check || needs_attention (location_state py c p))))
  attended_lem =
      let later =
        deductible_quiet p.deductible_amount_minor (check "location" (location_state py c p) ∷ [])
        ∙ or_false (needs_attention (location_state py c p)) in
      ap
        (λ b.
          b
          || (needs_attention (status_state py p)
              || (needs_attention (peril_state py c p)
                  || (needs_attention limit_check
                      || any is_attention (
                          deductible_check p.deductible_amount_minor
                          ++ (check "location" (location_state py c p) ∷ []))))))
        (in_force_quiet (in_force_on (as_stamp (c.column Attribute.date_of_loss)) p))
      ∙ ap
          (λ b.
            needs_attention (status_state py p)
            || (needs_attention (peril_state py c p) || (needs_attention limit_check || b)))
          later

  peril_attended :
      needs_attention (peril_state py c p) ≡ true → any is_attention (checks_of py c p) ≡ true
  peril_attended h = attended_lem ∙ second (needs_attention (status_state py p)) _ _ h
    where
      second : (a b d : Bool) → b ≡ true → (a || (b || d)) ≡ true
      second a b d h = ground arith

  -- A loss is said to be likely covered exactly when a policy is there that was in force on the date of
  -- the loss, the reported cause is one of its perils, an officer or an exact match has bound the
  -- policy, and neither its status, nor the estimate against its limit, nor the location needs
  -- attention. An estimate above the limit does not need attention.
  pub assess_coverage_iff :
      (bound : Bool)
      → ((assess_coverage py c (some p) bound).indicator ≡ CoverageIndicator.likely_covered) ↔ (
          (in_force_on (as_stamp (c.column Attribute.date_of_loss)) p ≡ some true)
          × (peril_state py c p ≡ CheckState.pass)
          × (bound ≡ true)
          × (needs_attention (status_state py p) ≡ false)
          × (needs_attention limit_check ≡ false)
          × (needs_attention (location_state py c p) ≡ false))
  unfolding assess_coverage
  assess_coverage_iff bound =
      let force = in_force_on (as_stamp (c.column Attribute.date_of_loss)) p in
      let (to, from) =
        coverage_verdict_iff (checks_of py c p) bound force (peril_state py c p) peril_attended in
      let tests =
        attended_tests (needs_attention (status_state py p)) (needs_attention (peril_state py c p))
          (needs_attention limit_check) (needs_attention (location_state py c p)) in
      (
        λ e.
            let (in_force, peril, quiet, sure) = to e in
            let (st, li, lo) = (tests (ap needs_attention peril)).0 (sym attended_lem ∙ quiet) in
            (in_force, peril, sure, st, li, lo),
        λ (in_force, peril, sure, st, li, lo). from (
          in_force,
          peril,
          attended_lem ∙ (tests (ap needs_attention peril)).1 (st, li, lo),
          sure,
        ),
      )
