-- ===== src/Lifecycle.antt =====
-- The state machine of a notification: `app/domain/lifecycle.py`, with the set of terminal statuses
-- of `app/domain/enums.py`. A frozenset is a list of its members; a set that is built from the open
-- exception codes is the list that it is built from, read by membership alone.
pub mod Transitions
pub mod Derived
use claims_workbench_be.Common.{
  Bool, true, false, List, [], ◌∷◌, ◌==◌, ◌∈?◌, if◌then◌else◌, keep, ◌||◌,
}
use claims_workbench_be.Enums.Intake.{FnolStatus, fnol_status_eq, ExceptionCode, exception_code_eq}

-- `TERMINAL_FNOL_STATUSES`
abbrev pub terminal_fnol_statuses : List FnolStatus
terminal_fnol_statuses = FnolStatus.claim_created ∷ FnolStatus.rejected ∷ FnolStatus.cancelled ∷ []

-- `_ALLOWED.get(status, frozenset())`
unfoldable pub allowed : FnolStatus → List FnolStatus
allowed FnolStatus.received =
    FnolStatus.processing ∷ FnolStatus.needs_review ∷ FnolStatus.incomplete
    ∷ FnolStatus.ai_processing_failed ∷ FnolStatus.cancelled ∷ FnolStatus.rejected ∷ []
allowed FnolStatus.processing =
    FnolStatus.needs_review ∷ FnolStatus.incomplete ∷ FnolStatus.possible_duplicate
    ∷ FnolStatus.policy_match_required ∷ FnolStatus.ready_for_claim
    ∷ FnolStatus.ai_processing_failed ∷ FnolStatus.cancelled ∷ []
allowed FnolStatus.needs_review =
    FnolStatus.processing ∷ FnolStatus.incomplete ∷ FnolStatus.possible_duplicate
    ∷ FnolStatus.policy_match_required ∷ FnolStatus.ready_for_claim ∷ FnolStatus.referred
    ∷ FnolStatus.rejected ∷ FnolStatus.cancelled ∷ []
allowed FnolStatus.incomplete =
    FnolStatus.processing ∷ FnolStatus.needs_review ∷ FnolStatus.possible_duplicate
    ∷ FnolStatus.policy_match_required ∷ FnolStatus.ready_for_claim ∷ FnolStatus.referred
    ∷ FnolStatus.rejected ∷ FnolStatus.cancelled ∷ []
allowed FnolStatus.possible_duplicate =
    FnolStatus.processing ∷ FnolStatus.needs_review ∷ FnolStatus.incomplete
    ∷ FnolStatus.policy_match_required ∷ FnolStatus.ready_for_claim ∷ FnolStatus.referred
    ∷ FnolStatus.rejected ∷ FnolStatus.cancelled ∷ []
allowed FnolStatus.policy_match_required =
    FnolStatus.processing ∷ FnolStatus.needs_review ∷ FnolStatus.incomplete
    ∷ FnolStatus.possible_duplicate ∷ FnolStatus.ready_for_claim ∷ FnolStatus.referred
    ∷ FnolStatus.rejected ∷ FnolStatus.cancelled ∷ []
allowed FnolStatus.ai_processing_failed =
    FnolStatus.processing ∷ FnolStatus.needs_review ∷ FnolStatus.incomplete ∷ FnolStatus.rejected
    ∷ FnolStatus.cancelled ∷ []
allowed FnolStatus.referred =
    FnolStatus.processing ∷ FnolStatus.needs_review ∷ FnolStatus.ready_for_claim
    ∷ FnolStatus.rejected ∷ FnolStatus.cancelled ∷ []
allowed FnolStatus.ready_for_claim =
    FnolStatus.processing ∷ FnolStatus.needs_review ∷ FnolStatus.incomplete
    ∷ FnolStatus.possible_duplicate ∷ FnolStatus.policy_match_required ∷ FnolStatus.referred
    ∷ FnolStatus.claim_created ∷ FnolStatus.rejected ∷ FnolStatus.cancelled ∷ []
allowed FnolStatus.claim_created = []
allowed FnolStatus.rejected = []
allowed FnolStatus.cancelled = []

-- `BLOCKING_EXCEPTIONS`
abbrev pub blocking_exceptions : List ExceptionCode
blocking_exceptions =
    ExceptionCode.no_policy_match ∷ ExceptionCode.multiple_policy_matches
    ∷ ExceptionCode.unconfirmed_policy_match ∷ ExceptionCode.missing_critical_information
    ∷ ExceptionCode.possible_duplicate ∷ ExceptionCode.future_loss_date ∷ []

-- `_STATUS_FOR_EXCEPTION`
abbrev pub status_for_exception : List (ExceptionCode × FnolStatus)
status_for_exception =
    (ExceptionCode.missing_critical_information, FnolStatus.incomplete)
    ∷ (ExceptionCode.no_policy_match, FnolStatus.policy_match_required)
    ∷ (ExceptionCode.multiple_policy_matches, FnolStatus.policy_match_required)
    ∷ (ExceptionCode.unconfirmed_policy_match, FnolStatus.policy_match_required)
    ∷ (ExceptionCode.possible_duplicate, FnolStatus.possible_duplicate)
    ∷ (ExceptionCode.future_loss_date, FnolStatus.incomplete)
    ∷ []

unfoldable pub is_terminal : FnolStatus → Bool
is_terminal status = status ∈? terminal_fnol_statuses

unfoldable pub can_transition : FnolStatus → FnolStatus → Bool
unfolding allowed
can_transition current target = if current == target then true else target ∈? allowed current

unfoldable pub blocking_codes : List ExceptionCode → List ExceptionCode
blocking_codes open_codes = keep (λ code. code ∈? open_codes) blocking_exceptions

-- The loop over `_STATUS_FOR_EXCEPTION`, and the status behind it.
abbrev pub first_status :
    List (ExceptionCode × FnolStatus) → (ExceptionCode → Bool) → FnolStatus → FnolStatus
first_status [] raised otherwise = otherwise
first_status ((code, status) ∷ rest) raised otherwise =
    if raised code then status else first_status rest raised otherwise

unfoldable pub derive_status : FnolStatus → List ExceptionCode → Bool → FnolStatus
unfolding is_terminal
derive_status current open_codes extraction_failed =
    if is_terminal current || current == FnolStatus.referred
    then current
    else if extraction_failed
    then FnolStatus.ai_processing_failed
    else first_status status_for_exception (λ code. code ∈? open_codes) FnolStatus.ready_for_claim
