-- ===== src/Examples/Fixtures.antt =====
-- A notification with its policy confirmed, and a database that holds it.
use claims_workbench_be.Common.{ℕ, true, false, Option, none, some, [], ◌∷◌}
use claims_workbench_be.Enums.Intake.{
  FnolStatus, ProcessingState, ExceptionCode, ExceptionSeverity, ExceptionStatus,
}
use claims_workbench_be.Enums.Assessment.{
  PolicyMatchStrength, Severity, RiskLevel, CoverageIndicator,
}
use claims_workbench_be.References.{fnol_prefix, format_reference}
use claims_workbench_be.Model.Case.{
  Attribute, Value, text, stamp, FnolCase, date_of_loss, loss_description, insured_name,
}
use claims_workbench_be.Model.Rows.{FnolException, Message, low_confidence, fields_missing}
use claims_workbench_be.Model.Db.{Db}
use claims_workbench_be.Completeness.{empty_result}
use claims_workbench_be.Exceptions.{Findings, Settings}

abbrev columns : Attribute → Option Value
columns date_of_loss = some (stamp 100)
columns loss_description = some (text "Storm damage to the roof")
columns insured_name = some (text "Acme Ltd")
columns _ = none

abbrev pub notice : FnolCase
notice = record {
  id = 1;
  reference = format_reference fnol_prefix 2026 412;
  status = FnolStatus.needs_review;
  processing_state = ProcessingState.completed;
  processing_error = none;
  received_at = 200;
  external_reference = none;
  source_body = some "The roof came off in the storm.";
  column = columns;
  flag = λ _. false;
  policy_id = some 7;
  policy_confirmed = true;
  line_of_business = some "property";
  claim_type = none;
  loss_type = none;
  classification_confidence = none;
  classification_overridden = false;
  currency = "GBP";
  severity = some "medium";
  severity_confidence = none;
  severity_overridden = false;
  fraud_risk = none;
  extraction_confidence = some 90;
  cat_event_id = none;
  cat_confidence = none;
  cat_confirmed = false;
  claim_id = none;
}

abbrev pub raised : ℕ → ExceptionCode → Message → ExceptionStatus → FnolException
raised id code message status = record {
  id = id;
  fnol_case_id = 1;
  code = code;
  severity = ExceptionSeverity.warning;
  message = message;
  blocking = false;
  status = status;
  resolution_note = none;
  resolved_by = none;
  resolved_at = none;
}

-- One exception that is open and one that an officer dismissed.
abbrev pub desk : Db
desk = record {
  next_id = 50;
  cases = notice ∷ [];
  exceptions =
      raised 10 ExceptionCode.low_extraction_confidence (low_confidence 40) ExceptionStatus.«open»
      ∷ raised 11 ExceptionCode.missing_critical_information (fields_missing ("loss.date" ∷ []))
          ExceptionStatus.dismissed
      ∷ [];
  fields = [];
  duplicates = [];
  policy_matches = [];
  parties = [];
  claims = [];
  triages = [];
  assignments = [];
  handlers = [];
  sequences = [];
  audit = [];
}

abbrev pub settings : Settings
settings = record {
  duplicate_strong_threshold = 85;
  low_confidence_threshold = 60;
  is_future_date = λ _. false;
}

-- A policy that is only possible, and an extraction that was confident.
abbrev pub findings : Findings
findings = record {
  policy_strength = PolicyMatchStrength.possible;
  policy_candidates = 2;
  policy = none;
  duplicates = [];
  completeness = empty_result;
  severity = Severity.medium;
  fraud_level = RiskLevel.low;
  fraud_score = 10;
  coverage = CoverageIndicator.review_required;
  cat_match = none;
  extraction_failed = false;
  extraction_confidence = some 90;
  unreadable_documents = 0;
  raw_loss_date = some "2026-01-04";
}
