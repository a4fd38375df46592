-- ===== src/Examples/Status.antt =====
-- The theorems on statuses, applied.
use claims_workbench_be.Common.{
  true, false, ◌≡◌, refl, ◌↔◌, ◌⊎◌, List, [], ◌∷◌, ◌∈?◌, ◌==◌, ◌||◌, not, SameMembers,
}
use claims_workbench_be.Enums.Intake.{FnolStatus, fnol_status_eq, ExceptionCode, exception_code_eq}
use claims_workbench_be.Lifecycle.{is_terminal, can_transition, derive_status, blocking_codes}
use claims_workbench_be.Lifecycle.Transitions.{
  Moves, here, move, Visits, terminal-Moves, claim_created_through_ready, open-Moves,
}
use claims_workbench_be.Lifecycle.Derived.{
  derive_status-ready_iff, derive_status_legal_iff, derive_status_failed_legal_iff,
}

-- A notice that came in twice, and one with a missing field and a low confidence.
abbrev found : List ExceptionCode
found = ExceptionCode.low_extraction_confidence ∷ ExceptionCode.missing_critical_information ∷ []

abbrev found_backwards : List ExceptionCode
found_backwards =
    ExceptionCode.missing_critical_information ∷ ExceptionCode.low_extraction_confidence ∷ []

rejected_self : can_transition FnolStatus.rejected FnolStatus.rejected ≡ true
unfolding can_transition
rejected_self = refl

rejected_terminal : is_terminal FnolStatus.rejected ≡ true
unfolding is_terminal
rejected_terminal = refl

terminal-Moves_example : FnolStatus.rejected ≡ FnolStatus.rejected
terminal-Moves_example = terminal-Moves rejected_terminal (move rejected_self here)

received_processing : can_transition FnolStatus.received FnolStatus.processing ≡ true
unfolding can_transition
received_processing = refl

processing_ready : can_transition FnolStatus.processing FnolStatus.ready_for_claim ≡ true
unfolding can_transition
processing_ready = refl

ready_created : can_transition FnolStatus.ready_for_claim FnolStatus.claim_created ≡ true
unfolding can_transition
ready_created = refl

claim_created_through_ready_example :
    (FnolStatus.received ≡ FnolStatus.claim_created)
    ⊎ Visits FnolStatus.ready_for_claim
        (move received_processing (move processing_ready (move ready_created here)))
claim_created_through_ready_example =
    claim_created_through_ready
      (move received_processing (move processing_ready (move ready_created here))) refl

referred_open : is_terminal FnolStatus.referred ≡ false
unfolding is_terminal
referred_open = refl

open-Moves_example :
    Moves FnolStatus.referred FnolStatus.claim_created
    × (can_transition FnolStatus.referred FnolStatus.cancelled ≡ true)
open-Moves_example = open-Moves FnolStatus.referred referred_open

review_active : is_terminal FnolStatus.needs_review ≡ false
unfolding is_terminal
review_active = refl

derive_status-ready_iff_example :
    (derive_status FnolStatus.needs_review found false ≡ FnolStatus.ready_for_claim)
    ↔ (blocking_codes found ≡ [])
unfolding is_terminal
derive_status-ready_iff_example = derive_status-ready_iff FnolStatus.needs_review found refl

same_found : SameMembers found found_backwards
same_found ExceptionCode.low_extraction_confidence = refl
same_found _ = refl

derive_status_legal_iff_example :
    can_transition FnolStatus.received (derive_status FnolStatus.received found false) ≡ (
      not (FnolStatus.received ∈? (FnolStatus.received ∷ FnolStatus.ai_processing_failed ∷ []))
      || derive_status FnolStatus.received found false == FnolStatus.incomplete)
derive_status_legal_iff_example = derive_status_legal_iff FnolStatus.received found

derive_status_failed_legal_iff_example :
    can_transition FnolStatus.needs_review (derive_status FnolStatus.needs_review found true) ≡ (
      FnolStatus.needs_review
      ∈? (FnolStatus.received ∷ FnolStatus.processing ∷ FnolStatus.ai_processing_failed ∷ []))
unfolding is_terminal
derive_status_failed_legal_iff_example =
    derive_status_failed_legal_iff FnolStatus.needs_review found refl
