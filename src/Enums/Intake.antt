-- ===== src/Enums/Intake.antt =====
-- The vocabulary of a notification and of what is recorded about it: string enumerations of `app/domain/enums.py`.
-- A column that holds such a string is typed by the enumeration; members are compared by their place.
use claims_workbench_be.Common.{ℕ, ◌≡◌, refl, List, [], ◌∷◌, get_or, BEq, enum_eq}

pub data FnolStatus : Type 0 where
  received processing needs_review incomplete possible_duplicate : FnolStatus
  policy_match_required ai_processing_failed referred ready_for_claim claim_created : FnolStatus
  rejected cancelled : FnolStatus

abbrev pub fnol_statuses : List FnolStatus
fnol_statuses =
    FnolStatus.received ∷ FnolStatus.processing ∷ FnolStatus.needs_review ∷ FnolStatus.incomplete
    ∷ FnolStatus.possible_duplicate ∷ FnolStatus.policy_match_required
    ∷ FnolStatus.ai_processing_failed ∷ FnolStatus.referred ∷ FnolStatus.ready_for_claim
    ∷ FnolStatus.claim_created ∷ FnolStatus.rejected ∷ FnolStatus.cancelled ∷ []

abbrev pub fnol_status_rank : FnolStatus → ℕ
fnol_status_rank FnolStatus.received = 0
fnol_status_rank FnolStatus.processing = 1
fnol_status_rank FnolStatus.needs_review = 2
fnol_status_rank FnolStatus.incomplete = 3
fnol_status_rank FnolStatus.possible_duplicate = 4
fnol_status_rank FnolStatus.policy_match_required = 5
fnol_status_rank FnolStatus.ai_processing_failed = 6
fnol_status_rank FnolStatus.referred = 7
fnol_status_rank FnolStatus.ready_for_claim = 8
fnol_status_rank FnolStatus.claim_created = 9
fnol_status_rank FnolStatus.rejected = 10
fnol_status_rank FnolStatus.cancelled = 11

pub get_or-fnol_status_rank :
    (a : FnolStatus) → get_or fnol_statuses (fnol_status_rank a) FnolStatus.received ≡ a
get_or-fnol_status_rank FnolStatus.received = refl
get_or-fnol_status_rank _ = refl

instance abbrev pub fnol_status_eq : BEq FnolStatus
fnol_status_eq = enum_eq fnol_status_rank fnol_statuses FnolStatus.received get_or-fnol_status_rank

pub data ProcessingState : Type 0 where
  idle queued processing completed failed : ProcessingState

abbrev pub processing_states : List ProcessingState
processing_states =
    ProcessingState.idle ∷ ProcessingState.queued ∷ ProcessingState.processing
    ∷ ProcessingState.completed ∷ ProcessingState.failed ∷ []

abbrev pub processing_state_rank : ProcessingState → ℕ
processing_state_rank ProcessingState.idle = 0
processing_state_rank ProcessingState.queued = 1
processing_state_rank ProcessingState.processing = 2
processing_state_rank ProcessingState.completed = 3
processing_state_rank ProcessingState.failed = 4

pub get_or-processing_state_rank :
    (a : ProcessingState)
    → get_or processing_states (processing_state_rank a) ProcessingState.idle ≡ a
get_or-processing_state_rank ProcessingState.idle = refl
get_or-processing_state_rank _ = refl

instance abbrev pub processing_state_eq : BEq ProcessingState
processing_state_eq =
    enum_eq processing_state_rank processing_states ProcessingState.idle
      get_or-processing_state_rank

pub data ExceptionCode : Type 0 where
  no_policy_match multiple_policy_matches unconfirmed_policy_match possible_duplicate :
      ExceptionCode
  missing_critical_information high_severity fraud_indicator coverage_issue cat_match :
      ExceptionCode
  low_extraction_confidence conflicting_dates future_loss_date outside_policy_period : ExceptionCode
  exceeds_policy_limit ai_processing_failed document_unreadable : ExceptionCode

abbrev pub exception_codes : List ExceptionCode
exception_codes =
    ExceptionCode.no_policy_match ∷ ExceptionCode.multiple_policy_matches
    ∷ ExceptionCode.unconfirmed_policy_match ∷ ExceptionCode.possible_duplicate
    ∷ ExceptionCode.missing_critical_information ∷ ExceptionCode.high_severity
    ∷ ExceptionCode.fraud_indicator ∷ ExceptionCode.coverage_issue ∷ ExceptionCode.cat_match
    ∷ ExceptionCode.low_extraction_confidence ∷ ExceptionCode.conflicting_dates
    ∷ ExceptionCode.future_loss_date ∷ ExceptionCode.outside_policy_period
    ∷ ExceptionCode.exceeds_policy_limit ∷ ExceptionCode.ai_processing_failed
    ∷ ExceptionCode.document_unreadable ∷ []

abbrev pub exception_code_rank : ExceptionCode → ℕ
exception_code_rank ExceptionCode.no_policy_match = 0
exception_code_rank ExceptionCode.multiple_policy_matches = 1
exception_code_rank ExceptionCode.unconfirmed_policy_match = 2
exception_code_rank ExceptionCode.possible_duplicate = 3
exception_code_rank ExceptionCode.missing_critical_information = 4
exception_code_rank ExceptionCode.high_severity = 5
exception_code_rank ExceptionCode.fraud_indicator = 6
exception_code_rank ExceptionCode.coverage_issue = 7
exception_code_rank ExceptionCode.cat_match = 8
exception_code_rank ExceptionCode.low_extraction_confidence = 9
exception_code_rank ExceptionCode.conflicting_dates = 10
exception_code_rank ExceptionCode.future_loss_date = 11
exception_code_rank ExceptionCode.outside_policy_period = 12
exception_code_rank ExceptionCode.exceeds_policy_limit = 13
exception_code_rank ExceptionCode.ai_processing_failed = 14
exception_code_rank ExceptionCode.document_unreadable = 15

pub get_or-exception_code_rank :
    (a : ExceptionCode)
    → get_or exception_codes (exception_code_rank a) ExceptionCode.no_policy_match ≡ a
get_or-exception_code_rank ExceptionCode.no_policy_match = refl
get_or-exception_code_rank _ = refl

instance abbrev pub exception_code_eq : BEq ExceptionCode
exception_code_eq =
    enum_eq exception_code_rank exception_codes ExceptionCode.no_policy_match
      get_or-exception_code_rank

pub data ExceptionSeverity : Type 0 where
  info warning critical : ExceptionSeverity

abbrev pub exception_severities : List ExceptionSeverity
exception_severities =
    ExceptionSeverity.info ∷ ExceptionSeverity.warning ∷ ExceptionSeverity.critical ∷ []

abbrev pub exception_severity_rank : ExceptionSeverity → ℕ
exception_severity_rank ExceptionSeverity.info = 0
exception_severity_rank ExceptionSeverity.warning = 1
exception_severity_rank ExceptionSeverity.critical = 2

pub get_or-exception_severity_rank :
    (a : ExceptionSeverity)
    → get_or exception_severities (exception_severity_rank a) ExceptionSeverity.info ≡ a
get_or-exception_severity_rank ExceptionSeverity.info = refl
get_or-exception_severity_rank _ = refl

instance abbrev pub exception_severity_eq : BEq ExceptionSeverity
exception_severity_eq =
    enum_eq exception_severity_rank exception_severities ExceptionSeverity.info
      get_or-exception_severity_rank

pub data ExceptionStatus : Type 0 where
  «open» resolved dismissed : ExceptionStatus

abbrev pub exception_statuses : List ExceptionStatus
exception_statuses =
    ExceptionStatus.«open» ∷ ExceptionStatus.resolved ∷ ExceptionStatus.dismissed ∷ []

abbrev pub exception_status_rank : ExceptionStatus → ℕ
exception_status_rank ExceptionStatus.«open» = 0
exception_status_rank ExceptionStatus.resolved = 1
exception_status_rank ExceptionStatus.dismissed = 2

pub get_or-exception_status_rank :
    (a : ExceptionStatus)
    → get_or exception_statuses (exception_status_rank a) ExceptionStatus.«open» ≡ a
get_or-exception_status_rank ExceptionStatus.«open» = refl
get_or-exception_status_rank _ = refl

instance abbrev pub exception_status_eq : BEq ExceptionStatus
exception_status_eq =
    enum_eq exception_status_rank exception_statuses ExceptionStatus.«open»
      get_or-exception_status_rank

pub data DuplicateResolution : Type 0 where
  unresolved new_claim linked duplicate : DuplicateResolution

abbrev pub duplicate_resolutions : List DuplicateResolution
duplicate_resolutions =
    DuplicateResolution.unresolved ∷ DuplicateResolution.new_claim ∷ DuplicateResolution.linked
    ∷ DuplicateResolution.duplicate ∷ []

abbrev pub duplicate_resolution_rank : DuplicateResolution → ℕ
duplicate_resolution_rank DuplicateResolution.unresolved = 0
duplicate_resolution_rank DuplicateResolution.new_claim = 1
duplicate_resolution_rank DuplicateResolution.linked = 2
duplicate_resolution_rank DuplicateResolution.duplicate = 3

pub get_or-duplicate_resolution_rank :
    (a : DuplicateResolution)
    → get_or duplicate_resolutions (duplicate_resolution_rank a) DuplicateResolution.unresolved ≡ a
get_or-duplicate_resolution_rank DuplicateResolution.unresolved = refl
get_or-duplicate_resolution_rank _ = refl

instance abbrev pub duplicate_resolution_eq : BEq DuplicateResolution
duplicate_resolution_eq =
    enum_eq duplicate_resolution_rank duplicate_resolutions DuplicateResolution.unresolved
      get_or-duplicate_resolution_rank

pub data FieldSource : Type 0 where
  ai human channel derived : FieldSource

abbrev pub field_sources : List FieldSource
field_sources = FieldSource.ai ∷ FieldSource.human ∷ FieldSource.channel ∷ FieldSource.derived ∷ []

abbrev pub field_source_rank : FieldSource → ℕ
field_source_rank FieldSource.ai = 0
field_source_rank FieldSource.human = 1
field_source_rank FieldSource.channel = 2
field_source_rank FieldSource.derived = 3

pub get_or-field_source_rank :
    (a : FieldSource) → get_or field_sources (field_source_rank a) FieldSource.ai ≡ a
get_or-field_source_rank FieldSource.ai = refl
get_or-field_source_rank _ = refl

instance abbrev pub field_source_eq : BEq FieldSource
field_source_eq = enum_eq field_source_rank field_sources FieldSource.ai get_or-field_source_rank
