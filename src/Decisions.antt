-- ===== src/Decisions.antt =====
-- The decisions of an officer on a notification: the overrides, and the resolution of duplicates and
-- exceptions, of `FNOLService` in `app/services/fnol/service.py`.
pub mod Duplicates
pub mod Exceptions
use claims_workbench_be.Common.{
  ℕ, Bool, true, false, not, ◌&&◌, ◌||◌, Option, none, some, or_else, List, [], ◌∷◌, keep, is_empty,
  is_some, String, nat_eq, ◌==◌, if◌then◌else◌,
}
use claims_workbench_be.Common.Table.{find, modify}
use claims_workbench_be.Enums.Intake.{
  FnolStatus, ExceptionCode, ExceptionStatus, exception_status_eq, DuplicateResolution,
  duplicate_resolution_eq,
}
use claims_workbench_be.Enums.Assessment.{Severity, severity_value}
use claims_workbench_be.Enums.Claims.{ActorType, AuditEventType}
use claims_workbench_be.Model.Case.{FnolCase, holds_text}
use claims_workbench_be.Model.Rows.{
  FnolDuplicateCandidate, FnolException, AuditValue, missing, words, identifier, exception_code,
  exception_status, duplicate_resolution, optional_words,
}
use claims_workbench_be.Model.Db.{Db}
use claims_workbench_be.Repository.Exceptions.{clear_exception}
use claims_workbench_be.Repository.Duplicates.{
  get_duplicate, list_duplicates, update_duplicate, is_unresolved,
}
use claims_workbench_be.Audit.{Snapshot, audit_fnol}
use claims_workbench_be.Session.{Session}
use claims_workbench_be.StatusService.{refresh_status, with_status}

-- Who decides, and when.
pub record Decider : Type 0 where
  pub actor : String
  pub now : ℕ

abbrev pub note_context : Option String → Snapshot
note_context remark = if holds_text remark then ("note", optional_words remark) ∷ [] else []

abbrev pub audited : AuditEventType → String → Snapshot → Snapshot → Snapshot → Session → Session
audited event actor before after context s = record s {
  db = audit_fnol s.case event actor ActorType.human before after context s.db;
}

unfoldable pub override_severity : Severity → String → String → Session → Session
override_severity severity reason actor s =
    audited AuditEventType.severity_overridden actor
      (("severity", optional_words s.case.severity) ∷ [])
      (("severity", words (severity_value severity)) ∷ []) (("reason", words reason) ∷ [])
      (record s {
        case = record s.case {
          severity = some (severity_value severity);
          severity_overridden = true;
          severity_confidence = some 100;
        };
      })

abbrev pub classified : Option String → Option String → Option String → Snapshot
classified line loss claim =
    ("line_of_business", optional_words line)
    ∷ ("loss_type", optional_words loss)
    ∷ ("claim_type", optional_words claim)
    ∷ []

unfoldable pub override_classification :
    String → Option String → Option String → String → String → Session → Session
override_classification line loss claim reason actor s =
    audited AuditEventType.classification_overridden actor
      (classified s.case.line_of_business s.case.loss_type s.case.claim_type)
      (classified (some line) loss claim) (("reason", words reason) ∷ [])
      (record s {
        case = record s.case {
          line_of_business = some line;
          loss_type = loss;
          claim_type = claim;
          classification_overridden = true;
          classification_confidence = some 100;
        };
      })

abbrev pub optional_identifier : Option ℕ → AuditValue
optional_identifier none = missing
optional_identifier (some id) = identifier id

abbrev pub cat_confirmed_as : ℕ → String → Session → Session
cat_confirmed_as target actor s =
    audited AuditEventType.cat_match_confirmed actor [] (("cat_event_id", identifier target) ∷ [])
      [] (record s { case = record s.case { cat_event_id = some target; cat_confirmed = true } })

-- The event must exist.
abbrev pub confirm_cat_target : (ℕ → Bool) → Option ℕ → String → Session → Option Session
confirm_cat_target event_exists none actor s = none
confirm_cat_target event_exists (some target) actor s =
    if event_exists target then some (cat_confirmed_as target actor s) else none

-- `none` is the validation error.
unfoldable pub confirm_cat_match : (ℕ → Bool) → Bool → String → Option ℕ → Session → Option Session
confirm_cat_match event_exists true actor event_id s =
    confirm_cat_target event_exists (or_else event_id s.case.cat_event_id) actor s
confirm_cat_match event_exists false actor event_id s = some (
    audited AuditEventType.cat_match_removed actor
      (("cat_event_id", optional_identifier s.case.cat_event_id) ∷ []) [] []
      (record s {
        case = record s.case { cat_event_id = none; cat_confirmed = false; cat_confidence = none };
      }))

-- What the resolution writes on the candidate.
abbrev pub decided :
    DuplicateResolution → Option String → Decider → FnolDuplicateCandidate → FnolDuplicateCandidate
decided resolution remark o d = record d {
  resolution = resolution;
  resolved_by = some o.actor;
  resolved_at = some o.now;
  resolution_note = remark;
}

-- The candidates of the case that are still to be decided, but one.
abbrev pub outstanding : ℕ → ℕ → Db → List FnolDuplicateCandidate
outstanding case_id id db =
    keep (λ d. not (d.id == id) && is_unresolved d) (list_duplicates case_id db)

-- The exception is cleared with the last candidate.
abbrev pub settle : ℕ → Session → Session
settle id s =
    if is_empty (outstanding s.case.id id s.db)
    then record s { db = clear_exception s.case.id ExceptionCode.possible_duplicate s.db }
    else s

abbrev pub after_resolution : DuplicateResolution → ℕ → Session → Session
after_resolution DuplicateResolution.duplicate id s = record s {
  case = with_status FnolStatus.rejected s.case;
}
after_resolution resolution id s = settle id s

abbrev pub resolve_found :
    ℕ
    → DuplicateResolution
    → Option String
    → Decider
    → Session
    → Option FnolDuplicateCandidate
    → Option Session
resolve_found id resolution remark o s none = none
resolve_found id resolution remark o s (some d) =
    if d.fnol_case_id == s.case.id
    then some (
        audited AuditEventType.duplicate_resolved o.actor []
          (("resolution", duplicate_resolution resolution)
            ∷ ("reference", words d.candidate_reference)
            ∷ [])
          (note_context remark)
          (after_resolution resolution id
            (record s { db = update_duplicate id (decided resolution remark o) s.db })))
    else none

-- `none` is the error that the candidate is not on the notification.
unfoldable pub resolve_duplicate :
    ℕ → DuplicateResolution → Option String → Decider → Session → Option Session
unfolding get_duplicate list_duplicates update_duplicate
resolve_duplicate id resolution remark o s =
    resolve_found id resolution remark o s (get_duplicate id s.db)

-- `resolve_exception`: the two errors, and what is left.
pub data ExceptionResolution : Type 0 where
  not_found already_decided : ExceptionResolution
  resolved : Session → ExceptionResolution

abbrev pub exception_id : FnolException → ℕ
exception_id e = e.id

abbrev pub decided_exception :
    ExceptionStatus → Option String → Decider → FnolException → FnolException
decided_exception status remark o e = record e {
  status = status;
  resolution_note = remark;
  resolved_by = some o.actor;
  resolved_at = some o.now;
}

-- `refresh_status` on the case that the session holds.
abbrev pub refreshed : Session → Session
refreshed s =
    let (status, db) = refresh_status s.case s.db in
    record { case = with_status status s.case; db = db }

-- The decision, and the event that tells of it.
abbrev pub decided_session :
    ExceptionStatus → Option String → Decider → FnolException → Session → Session
decided_session status remark o e s =
    audited AuditEventType.exception_resolved o.actor []
      (("code", exception_code e.code) ∷ ("status", exception_status status) ∷ [])
      (note_context remark)
      (record s {
        db = record s.db {
          exceptions = modify exception_id e.id (decided_exception status remark o) s.db.exceptions;
        };
      })

abbrev pub resolve_open :
    ExceptionStatus → Option String → Decider → FnolException → Session → Session
resolve_open status remark o e s = refreshed (decided_session status remark o e s)

abbrev pub resolve_exception_found :
    ExceptionStatus → Option String → Decider → Session → Option FnolException → ExceptionResolution
resolve_exception_found status remark o s none = not_found
resolve_exception_found status remark o s (some e) =
    if e.fnol_case_id == s.case.id
    then (if e.status == ExceptionStatus.«open»
        then resolved (resolve_open status remark o e s)
        else already_decided)
    else not_found

unfoldable pub resolve_exception :
    ℕ → ExceptionStatus → Option String → Decider → Session → ExceptionResolution
unfolding refresh_status
resolve_exception id status remark o s =
    resolve_exception_found status remark o s (find exception_id id s.db.exceptions)
