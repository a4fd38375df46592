-- ===== src/Model/Rows.antt =====
-- The child rows of a notification (`app/models/fnol.py`) and the audit trail
-- (`app/models/audit.py`). The sentences of a row, which no code reads back, are left out or are a
-- `Message` with the values that they are rendered from.
use claims_workbench_be.Common.{ℕ, Bool, Option, none, some, List, String}
use claims_workbench_be.References.{Text}
use claims_workbench_be.Enums.Intake.{
  FnolStatus, ExceptionCode, ExceptionSeverity, ExceptionStatus, DuplicateResolution, FieldSource,
}
use claims_workbench_be.Enums.Assessment.{
  PolicyMatchStrength, Severity, RiskLevel, CoverageIndicator,
}
use claims_workbench_be.Enums.Claims.{
  ActorType, AuditEventType, Priority, TriageCategory, AssignmentStatus,
}

-- The title, detail and context of an exception, by what they are rendered from.
pub data Message : Type 0 where
  automated_reading_failed : Message
  no_policy_matched : (candidates : ℕ) → Message
  possible_policies : (candidates : ℕ) → Message
  needs_confirming : PolicyMatchStrength → Message
  loss_in_the_future : (reported : Option String) → Message
  conflicting_information : (paths : List String) → Message
  outside_the_period : (effective expiry loss_day : ℕ) → Message
  above_the_limit : (estimate limit : ℕ) → Message
  fields_missing : (paths : List String) → Message
  duplicate_of : (reference : String) (score : ℕ) (count : ℕ) → Message
  severity_assessed : Severity → Message
  fraud_indicators : RiskLevel → (score : ℕ) → Message
  coverage_needs_review : CoverageIndicator → Message
  catastrophe_match : (reference : String) (confidence : ℕ) → Message
  low_confidence : (confidence : ℕ) → Message
  unreadable : (count : ℕ) → Message

pub record FnolException : Type 0 where
  pub id : ℕ
  pub fnol_case_id : ℕ
  pub code : ExceptionCode
  pub severity : ExceptionSeverity
  pub message : Message
  pub blocking : Bool
  pub status : ExceptionStatus
  pub resolution_note : Option String
  pub resolved_by : Option String
  pub resolved_at : Option ℕ

pub record FnolExtractedField : Type 0 where
  pub fnol_case_id : ℕ
  pub field_path : String
  pub section : String
  pub label : String
  pub value_text : Option String
  pub confidence : Option ℕ
  pub source : FieldSource
  pub source_document_id : Option ℕ
  pub evidence_snippet : Option String
  pub human_modified : Bool
  pub original_value : Option String
  pub modified_by : Option String
  pub modified_at : Option ℕ
  pub override_reason : Option String

pub record FnolDuplicateCandidate : Type 0 where
  pub id : ℕ
  pub fnol_case_id : ℕ
  pub candidate_kind : String
  pub candidate_reference : String
  pub candidate_fnol_id : Option ℕ
  pub candidate_claim_id : Option ℕ
  pub score : ℕ
  pub resolution : DuplicateResolution
  pub resolved_by : Option String
  pub resolved_at : Option ℕ
  pub resolution_note : Option String

pub record FnolPolicyMatch : Type 0 where
  pub fnol_case_id : ℕ
  pub policy_id : ℕ
  pub match_strength : PolicyMatchStrength
  pub score : ℕ
  pub rank : ℕ
  pub selected : Bool
  pub selected_by : Option String

pub record FnolParty : Type 0 where
  pub fnol_case_id : ℕ
  pub role : String
  pub name : String
  pub organisation : Option String
  pub email : Option String
  pub phone : Option String
  pub source : FieldSource
  pub confidence : Option ℕ

-- A value in the snapshots of an event.
pub data AuditValue : Type 0 where
  missing : AuditValue
  words : String → AuditValue
  reference_text : Text → AuditValue
  amount : ℕ → AuditValue
  fnol_status : FnolStatus → AuditValue
  priority : Priority → AuditValue
  categories : List TriageCategory → AuditValue
  assignment : AssignmentStatus → AuditValue
  truth : Bool → AuditValue
  moment : ℕ → AuditValue
  exception_code : ExceptionCode → AuditValue
  exception_status : ExceptionStatus → AuditValue
  duplicate_resolution : DuplicateResolution → AuditValue
  identifier : ℕ → AuditValue

abbrev pub optional_words : Option String → AuditValue
optional_words none = missing
optional_words (some s) = words s

-- The one-line summary and the request id are left out.
pub record AuditEvent : Type 0 where
  pub entity_type : String
  pub entity_id : ℕ
  pub entity_reference : Text
  pub event_type : AuditEventType
  pub actor : String
  pub actor_type : ActorType
  pub before : List (String × AuditValue)
  pub after : List (String × AuditValue)
  pub context : List (String × AuditValue)
