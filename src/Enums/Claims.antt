-- ===== src/Enums/Claims.antt =====
-- The vocabulary of claims, of their triage and of the audit trail: string enumerations of `app/domain/enums.py`.
-- A column that holds such a string is typed by the enumeration; members are compared by their place.
use claims_workbench_be.Common.{ℕ, ◌≡◌, refl, List, [], ◌∷◌, get_or, BEq, enum_eq}

pub data TriageCategory : Type 0 where
  simple complex major_loss litigation_risk fraud_review cat_claim : TriageCategory
  specialist_required : TriageCategory

abbrev pub triage_categories : List TriageCategory
triage_categories =
    TriageCategory.simple ∷ TriageCategory.complex ∷ TriageCategory.major_loss
    ∷ TriageCategory.litigation_risk ∷ TriageCategory.fraud_review ∷ TriageCategory.cat_claim
    ∷ TriageCategory.specialist_required ∷ []

abbrev pub triage_category_rank : TriageCategory → ℕ
triage_category_rank TriageCategory.simple = 0
triage_category_rank TriageCategory.complex = 1
triage_category_rank TriageCategory.major_loss = 2
triage_category_rank TriageCategory.litigation_risk = 3
triage_category_rank TriageCategory.fraud_review = 4
triage_category_rank TriageCategory.cat_claim = 5
triage_category_rank TriageCategory.specialist_required = 6

pub get_or-triage_category_rank :
    (a : TriageCategory)
    → get_or triage_categories (triage_category_rank a) TriageCategory.simple ≡ a
get_or-triage_category_rank TriageCategory.simple = refl
get_or-triage_category_rank _ = refl

instance abbrev pub triage_category_eq : BEq TriageCategory
triage_category_eq =
    enum_eq triage_category_rank triage_categories TriageCategory.simple get_or-triage_category_rank

pub data Priority : Type 0 where
  routine standard high urgent : Priority

abbrev pub priorities : List Priority
priorities = Priority.routine ∷ Priority.standard ∷ Priority.high ∷ Priority.urgent ∷ []

abbrev pub priority_rank : Priority → ℕ
priority_rank Priority.routine = 0
priority_rank Priority.standard = 1
priority_rank Priority.high = 2
priority_rank Priority.urgent = 3

pub get_or-priority_rank : (a : Priority) → get_or priorities (priority_rank a) Priority.routine ≡ a
get_or-priority_rank Priority.routine = refl
get_or-priority_rank _ = refl

instance abbrev pub priority_eq : BEq Priority
priority_eq = enum_eq priority_rank priorities Priority.routine get_or-priority_rank

pub data ClaimStatus : Type 0 where
  fnol classified in_review escalated approved rejected : ClaimStatus

abbrev pub claim_statuses : List ClaimStatus
claim_statuses =
    ClaimStatus.fnol ∷ ClaimStatus.classified ∷ ClaimStatus.in_review ∷ ClaimStatus.escalated
    ∷ ClaimStatus.approved ∷ ClaimStatus.rejected ∷ []

abbrev pub claim_status_rank : ClaimStatus → ℕ
claim_status_rank ClaimStatus.fnol = 0
claim_status_rank ClaimStatus.classified = 1
claim_status_rank ClaimStatus.in_review = 2
claim_status_rank ClaimStatus.escalated = 3
claim_status_rank ClaimStatus.approved = 4
claim_status_rank ClaimStatus.rejected = 5

pub get_or-claim_status_rank :
    (a : ClaimStatus) → get_or claim_statuses (claim_status_rank a) ClaimStatus.fnol ≡ a
get_or-claim_status_rank ClaimStatus.fnol = refl
get_or-claim_status_rank _ = refl

instance abbrev pub claim_status_eq : BEq ClaimStatus
claim_status_eq = enum_eq claim_status_rank claim_statuses ClaimStatus.fnol get_or-claim_status_rank

pub data AssignmentStatus : Type 0 where
  recommended assigned unassigned : AssignmentStatus

abbrev pub assignment_statuses : List AssignmentStatus
assignment_statuses =
    AssignmentStatus.recommended ∷ AssignmentStatus.assigned ∷ AssignmentStatus.unassigned ∷ []

abbrev pub assignment_status_rank : AssignmentStatus → ℕ
assignment_status_rank AssignmentStatus.recommended = 0
assignment_status_rank AssignmentStatus.assigned = 1
assignment_status_rank AssignmentStatus.unassigned = 2

pub get_or-assignment_status_rank :
    (a : AssignmentStatus)
    → get_or assignment_statuses (assignment_status_rank a) AssignmentStatus.recommended ≡ a
get_or-assignment_status_rank AssignmentStatus.recommended = refl
get_or-assignment_status_rank _ = refl

instance abbrev pub assignment_status_eq : BEq AssignmentStatus
assignment_status_eq =
    enum_eq assignment_status_rank assignment_statuses AssignmentStatus.recommended
      get_or-assignment_status_rank

pub data AssignmentStrategy : Type 0 where
  skill_based workload queue manual : AssignmentStrategy

abbrev pub assignment_strategies : List AssignmentStrategy
assignment_strategies =
    AssignmentStrategy.skill_based ∷ AssignmentStrategy.workload ∷ AssignmentStrategy.queue
    ∷ AssignmentStrategy.manual ∷ []

abbrev pub assignment_strategy_rank : AssignmentStrategy → ℕ
assignment_strategy_rank AssignmentStrategy.skill_based = 0
assignment_strategy_rank AssignmentStrategy.workload = 1
assignment_strategy_rank AssignmentStrategy.queue = 2
assignment_strategy_rank AssignmentStrategy.manual = 3

pub get_or-assignment_strategy_rank :
    (a : AssignmentStrategy)
    → get_or assignment_strategies (assignment_strategy_rank a) AssignmentStrategy.skill_based ≡ a
get_or-assignment_strategy_rank AssignmentStrategy.skill_based = refl
get_or-assignment_strategy_rank _ = refl

instance abbrev pub assignment_strategy_eq : BEq AssignmentStrategy
assignment_strategy_eq =
    enum_eq assignment_strategy_rank assignment_strategies AssignmentStrategy.skill_based
      get_or-assignment_strategy_rank

pub data ActorType : Type 0 where
  human ai system : ActorType

abbrev pub actor_types : List ActorType
actor_types = ActorType.human ∷ ActorType.ai ∷ ActorType.system ∷ []

abbrev pub actor_type_rank : ActorType → ℕ
actor_type_rank ActorType.human = 0
actor_type_rank ActorType.ai = 1
actor_type_rank ActorType.system = 2

pub get_or-actor_type_rank :
    (a : ActorType) → get_or actor_types (actor_type_rank a) ActorType.human ≡ a
get_or-actor_type_rank ActorType.human = refl
get_or-actor_type_rank _ = refl

instance abbrev pub actor_type_eq : BEq ActorType
actor_type_eq = enum_eq actor_type_rank actor_types ActorType.human get_or-actor_type_rank

pub data AuditEventType : Type 0 where
  fnol_created fnol_ingested fnol_updated fnol_status_changed document_uploaded : AuditEventType
  document_deleted pipeline_started pipeline_completed pipeline_failed : AuditEventType
  extraction_completed field_changed policy_selected duplicate_resolved : AuditEventType
  severity_overridden classification_overridden fraud_reviewed cat_match_confirmed : AuditEventType
  cat_match_removed exception_resolved note_added claim_created triage_completed : AuditEventType
  triage_overridden handler_assigned : AuditEventType

abbrev pub audit_event_types : List AuditEventType
audit_event_types =
    AuditEventType.fnol_created ∷ AuditEventType.fnol_ingested ∷ AuditEventType.fnol_updated
    ∷ AuditEventType.fnol_status_changed ∷ AuditEventType.document_uploaded
    ∷ AuditEventType.document_deleted ∷ AuditEventType.pipeline_started
    ∷ AuditEventType.pipeline_completed ∷ AuditEventType.pipeline_failed
    ∷ AuditEventType.extraction_completed ∷ AuditEventType.field_changed
    ∷ AuditEventType.policy_selected ∷ AuditEventType.duplicate_resolved
    ∷ AuditEventType.severity_overridden ∷ AuditEventType.classification_overridden
    ∷ AuditEventType.fraud_reviewed ∷ AuditEventType.cat_match_confirmed
    ∷ AuditEventType.cat_match_removed ∷ AuditEventType.exception_resolved
    ∷ AuditEventType.note_added ∷ AuditEventType.claim_created ∷ AuditEventType.triage_completed
    ∷ AuditEventType.triage_overridden ∷ AuditEventType.handler_assigned ∷ []

abbrev pub audit_event_type_rank : AuditEventType → ℕ
audit_event_type_rank AuditEventType.fnol_created = 0
audit_event_type_rank AuditEventType.fnol_ingested = 1
audit_event_type_rank AuditEventType.fnol_updated = 2
audit_event_type_rank AuditEventType.fnol_status_changed = 3
audit_event_type_rank AuditEventType.document_uploaded = 4
audit_event_type_rank AuditEventType.document_deleted = 5
audit_event_type_rank AuditEventType.pipeline_started = 6
audit_event_type_rank AuditEventType.pipeline_completed = 7
audit_event_type_rank AuditEventType.pipeline_failed = 8
audit_event_type_rank AuditEventType.extraction_completed = 9
audit_event_type_rank AuditEventType.field_changed = 10
audit_event_type_rank AuditEventType.policy_selected = 11
audit_event_type_rank AuditEventType.duplicate_resolved = 12
audit_event_type_rank AuditEventType.severity_overridden = 13
audit_event_type_rank AuditEventType.classification_overridden = 14
audit_event_type_rank AuditEventType.fraud_reviewed = 15
audit_event_type_rank AuditEventType.cat_match_confirmed = 16
audit_event_type_rank AuditEventType.cat_match_removed = 17
audit_event_type_rank AuditEventType.exception_resolved = 18
audit_event_type_rank AuditEventType.note_added = 19
audit_event_type_rank AuditEventType.claim_created = 20
audit_event_type_rank AuditEventType.triage_completed = 21
audit_event_type_rank AuditEventType.triage_overridden = 22
audit_event_type_rank AuditEventType.handler_assigned = 23

pub get_or-audit_event_type_rank :
    (a : AuditEventType)
    → get_or audit_event_types (audit_event_type_rank a) AuditEventType.fnol_created ≡ a
get_or-audit_event_type_rank AuditEventType.fnol_created = refl
get_or-audit_event_type_rank _ = refl

instance abbrev pub audit_event_type_eq : BEq AuditEventType
audit_event_type_eq =
    enum_eq audit_event_type_rank audit_event_types AuditEventType.fnol_created
      get_or-audit_event_type_rank
