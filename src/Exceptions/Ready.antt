-- ===== src/Exceptions/Ready.antt =====
-- When the findings of a run leave a notification ready for a claim: `_collect` of
-- `app/services/fnol/exceptions.py` against `derive_status` of `app/domain/lifecycle.py`.
use claims_workbench_be.Common.{
  ℕ, ◌≡◌, refl, ◌↔◌, ◌∙◌, Bool, true, false, ◌&&◌, ◌||◌, not, List, [], ◌∷◌, sym, ◌==◌, ◌∈?◌, keep,
  is_empty, all, arith,
}
use claims_workbench_be.Enums.Intake.{FnolStatus, ExceptionCode, exception_code_eq}
use claims_workbench_be.Enums.Assessment.{PolicyMatchStrength, policy_match_strength_eq}
use claims_workbench_be.Lifecycle.{derive_status, blocking_codes, blocking_exceptions}
use claims_workbench_be.Lifecycle.Derived.{is_active, derive_status-ready_iff}
use claims_workbench_be.Model.Case.{FnolCase}
use claims_workbench_be.Completeness.{missing_critical}
use claims_workbench_be.Exceptions.{Settings, Findings, collect_policy, collect, codes, unresolved}
use claims_workbench_be.Exceptions.Stages.{raises, future_loss, raises-collect_blocking}

-- The policy is settled for the pipeline: an officer confirmed it, or the number matched exactly.
abbrev pub policy_settled : FnolCase → Findings → Bool
policy_settled c f = c.policy_confirmed || f.policy_strength == PolicyMatchStrength.exact

-- What has to hold of the findings.
abbrev pub nothing_blocks : Settings → FnolCase → Findings → Bool
nothing_blocks s c f =
    policy_settled c f
    && (not (future_loss s c f)
        && (is_empty (missing_critical f.completeness) && is_empty (unresolved f.duplicates)))

abbrev policy_quiet : Bool → PolicyMatchStrength → ℕ → Bool
policy_quiet confirmed strength candidates =
    all (λ d. not (raises (collect_policy confirmed strength candidates) d))
      (ExceptionCode.no_policy_match ∷ ExceptionCode.multiple_policy_matches
        ∷ ExceptionCode.unconfirmed_policy_match ∷ [])

policy_quiet_iff :
    (confirmed : Bool) (strength : PolicyMatchStrength) (candidates : ℕ)
    → policy_quiet confirmed strength candidates
      ≡ (confirmed || strength == PolicyMatchStrength.exact)
unfolding collect_policy
policy_quiet_iff confirmed strength candidates = ground arith

policy_silent :
    (confirmed : Bool) (strength : PolicyMatchStrength) (candidates : ℕ) (d : ExceptionCode)
    → (d ∈? (
        ExceptionCode.missing_critical_information ∷ ExceptionCode.possible_duplicate
        ∷ ExceptionCode.future_loss_date ∷ []))
      ≡ true
    → raises (collect_policy confirmed strength candidates) d ≡ false
unfolding collect_policy
policy_silent confirmed strength candidates d h = ground arith

is_empty-keep :
    (p : ExceptionCode → Bool) (xs : List ExceptionCode)
    → is_empty (keep p xs) ≡ all (λ x. not (p x)) xs
is_empty-keep p [] = refl
is_empty-keep p (x ∷ xs) = ground (arith, is_empty-keep p xs)

is_empty_iff : (xs : List ExceptionCode) → (xs ≡ []) ↔ (is_empty xs ≡ true)
is_empty_iff [] = (λ e. refl, λ e. refl)
is_empty_iff (x ∷ xs) = (λ e. cc, λ e. cc)

-- The six blocking codes, by the condition that raises each.
is_empty-blocking_codes :
    (s : Settings) (c : FnolCase) (f : Findings)
    → is_empty (blocking_codes (codes (collect s c f))) ≡ nothing_blocks s c f
unfolding blocking_codes
is_empty-blocking_codes s c f =
    is_empty-keep (λ d. raises (collect s c f) d) blocking_exceptions
    ∙ rw
        (
          raises-collect_blocking s c f ExceptionCode.no_policy_match refl,
          raises-collect_blocking s c f ExceptionCode.multiple_policy_matches refl,
          raises-collect_blocking s c f ExceptionCode.unconfirmed_policy_match refl,
          raises-collect_blocking s c f ExceptionCode.missing_critical_information refl,
          raises-collect_blocking s c f ExceptionCode.possible_duplicate refl,
          raises-collect_blocking s c f ExceptionCode.future_loss_date refl,
        )
        (rw
          (
            policy_silent c.policy_confirmed f.policy_strength f.policy_candidates
                ExceptionCode.missing_critical_information refl,
            policy_silent c.policy_confirmed f.policy_strength f.policy_candidates
                ExceptionCode.possible_duplicate refl,
            policy_silent c.policy_confirmed f.policy_strength f.policy_candidates
                ExceptionCode.future_loss_date refl,
          )
          (ground
            (arith, policy_quiet_iff c.policy_confirmed f.policy_strength f.policy_candidates)))

-- When every exception that a run raises is open, a case that may be moved, whose extraction
-- succeeded, becomes `ready_for_claim` exactly when an officer confirmed the policy or its number
-- matched exactly, the date of loss is not in the future, no critical field is missing, and no
-- duplicate candidate is unresolved.
pub derive_status-collect_iff :
    (s : Settings) (c : FnolCase) (f : Findings) (current : FnolStatus)
    → is_active current ≡ true
    → (derive_status current (codes (collect s c f)) false ≡ FnolStatus.ready_for_claim)
      ↔ (nothing_blocks s c f ≡ true)
derive_status-collect_iff s c f current h =
    let law = derive_status-ready_iff current (codes (collect s c f)) h in
    let empty = is_empty_iff (blocking_codes (codes (collect s c f))) in
    let count = is_empty-blocking_codes s c f in
    (λ e. sym count ∙ empty.0 (law.0 e), λ e. law.1 (empty.1 (count ∙ e)))
