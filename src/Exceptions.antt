-- ===== src/Exceptions.antt =====
-- The attention-required layer, `app/services/fnol/exceptions.py`: what `_collect` raises from the
-- findings of a pipeline run, and how `evaluate` persists it. A float is compared only; the clock and
-- the date parser behind `is_future_date` are a function that the section takes.
pub mod Persisted
pub mod Stages
pub mod Ready
use claims_workbench_be.Common.{
  ℕ, ◌≤◌, Bool, true, false, ◌&&◌, ◌||◌, not, Option, none, some, List, [], ◌∷◌, ◌++◌, map, String,
  ◌==◌, ◌∈?◌, if◌then◌else◌, ltb, leb, keep, length, is_empty, some_or, nat_beq,
}
use claims_workbench_be.Enums.Intake.{
  ExceptionCode, exception_codes, exception_code_eq, ExceptionSeverity, DuplicateResolution,
  duplicate_resolution_eq,
}
use claims_workbench_be.Enums.Assessment.{
  PolicyMatchStrength, Severity, severity_eq, RiskLevel, risk_level_eq, CoverageIndicator,
  coverage_indicator_eq,
}
use claims_workbench_be.Lifecycle.{blocking_exceptions}
use claims_workbench_be.Model.Case.{FnolCase, Attribute, as_stamp, as_number, day_of}
use claims_workbench_be.Model.Rows.{
  Message, automated_reading_failed, no_policy_matched, possible_policies, needs_confirming,
  loss_in_the_future, conflicting_information, outside_the_period, above_the_limit, fields_missing,
  duplicate_of, severity_assessed, fraud_indicators, coverage_needs_review, catastrophe_match,
  low_confidence, unreadable, FnolDuplicateCandidate,
}
use claims_workbench_be.Model.Claims.{Policy}
use claims_workbench_be.Model.Db.{Db}
use claims_workbench_be.Completeness.{
  CompletenessResult, FieldStatus, missing_critical, loss_after_received,
}
use claims_workbench_be.Repository.Exceptions.{upsert_exception, clear_exception}

pub record RaisedException : Type 0 where
  pub code : ExceptionCode
  pub severity : ExceptionSeverity
  pub message : Message

-- `RaisedException.blocking`
unfoldable pub is_blocking : RaisedException → Bool
is_blocking e = e.code ∈? blocking_exceptions

pub record CatMatch : Type 0 where
  pub event_id : ℕ
  pub reference : String
  pub confidence : ℕ

-- The keyword arguments of `evaluate`.
pub record Findings : Type 0 where
  pub policy_strength : PolicyMatchStrength
  pub policy_candidates : ℕ
  pub policy : Option Policy
  pub duplicates : List FnolDuplicateCandidate
  pub completeness : CompletenessResult
  pub severity : Severity
  pub fraud_level : RiskLevel
  pub fraud_score : ℕ
  pub coverage : CoverageIndicator
  pub cat_match : Option CatMatch
  pub extraction_failed : Bool
  pub extraction_confidence : Option ℕ
  pub unreadable_documents : ℕ
  pub raw_loss_date : Option String

-- What the configuration and the calendar say.
pub record Settings : Type 0 where
  pub duplicate_strong_threshold : ℕ
  pub low_confidence_threshold : ℕ
  pub is_future_date : Option String → Bool

abbrev raise_if : Bool → ExceptionCode → ExceptionSeverity → Message → List RaisedException
raise_if true code severity message =
    record { code = code; severity = severity; message = message } ∷ []
raise_if false code severity message = []

unfoldable pub collect_extraction : Findings → List RaisedException
collect_extraction f =
    raise_if f.extraction_failed ExceptionCode.ai_processing_failed ExceptionSeverity.critical
      automated_reading_failed

-- The branches under `if not case.policy_confirmed`.
unfoldable pub collect_policy : Bool → PolicyMatchStrength → ℕ → List RaisedException
collect_policy true strength candidates = []
collect_policy false PolicyMatchStrength.none candidates =
    raise_if true ExceptionCode.no_policy_match ExceptionSeverity.critical
      (no_policy_matched candidates)
collect_policy false PolicyMatchStrength.possible candidates =
    if ltb 1 candidates
    then raise_if true ExceptionCode.multiple_policy_matches ExceptionSeverity.warning
        (possible_policies candidates)
    else raise_if true ExceptionCode.unconfirmed_policy_match ExceptionSeverity.warning
        (needs_confirming PolicyMatchStrength.possible)
collect_policy false PolicyMatchStrength.high candidates =
    raise_if true ExceptionCode.unconfirmed_policy_match ExceptionSeverity.warning
      (needs_confirming PolicyMatchStrength.high)
collect_policy false PolicyMatchStrength.exact candidates = []

-- `loss_day` lies outside the policy's dates.
abbrev outside_period : Policy → ℕ → Bool
outside_period policy loss_day =
    not (leb policy.effective_date loss_day && leb loss_day policy.expiry_date)

abbrev period_message : Option Policy → Option ℕ → List RaisedException
period_message (some policy) (some loss) =
    raise_if (outside_period policy (day_of loss)) ExceptionCode.outside_policy_period
      ExceptionSeverity.critical
      (outside_the_period policy.effective_date policy.expiry_date (day_of loss))
period_message _ _ = []

-- A limit or an estimate of 0 is false, as an absent one is.
abbrev limit_message : Option Policy → Option ℕ → List RaisedException
limit_message none estimate = []
limit_message (some policy) estimate =
    let limit = some_or policy.limit_amount_minor 0 in
    let amount = some_or estimate 0 in
    raise_if (ltb 0 limit && (ltb 0 amount && ltb limit amount)) ExceptionCode.exceeds_policy_limit
      ExceptionSeverity.warning (above_the_limit amount limit)

unfoldable pub collect_dates : Settings → FnolCase → Findings → List RaisedException
collect_dates s c f =
    raise_if (s.is_future_date f.raw_loss_date || loss_after_received c)
      ExceptionCode.future_loss_date ExceptionSeverity.critical (loss_in_the_future f.raw_loss_date)
    ++ (raise_if (not (is_empty f.completeness.conflicting)) ExceptionCode.conflicting_dates
          ExceptionSeverity.warning
          (conflicting_information (map (λ s. s.path) f.completeness.conflicting))
        ++ (period_message f.policy (as_stamp (c.column Attribute.date_of_loss))
            ++ limit_message f.policy (as_number (c.column Attribute.estimated_loss_minor))))

unfoldable pub collect_completeness : Findings → List RaisedException
collect_completeness f =
    raise_if (not (is_empty (missing_critical f.completeness)))
      ExceptionCode.missing_critical_information ExceptionSeverity.critical
      (fields_missing (map (λ s. s.path) (missing_critical f.completeness)))

unfoldable pub unresolved : List FnolDuplicateCandidate → List FnolDuplicateCandidate
unresolved = keep (λ d. d.resolution == DuplicateResolution.unresolved)

-- `max(…, key=score)`: the first of the highest.
pub strongest : FnolDuplicateCandidate → List FnolDuplicateCandidate → FnolDuplicateCandidate
strongest best [] = best
strongest best (d ∷ rest) = strongest (if ltb best.score d.score then d else best) rest

abbrev duplicate_message : ℕ → List FnolDuplicateCandidate → List RaisedException
duplicate_message threshold [] = []
duplicate_message threshold (d ∷ rest) =
    let best = strongest d rest in
    raise_if true ExceptionCode.possible_duplicate
      (if leb threshold best.score then ExceptionSeverity.critical else ExceptionSeverity.warning)
      (duplicate_of best.candidate_reference best.score (length (d ∷ rest)))

unfoldable pub collect_duplicates : Settings → Findings → List RaisedException
unfolding unresolved
collect_duplicates s f = duplicate_message s.duplicate_strong_threshold (unresolved f.duplicates)

abbrev cat_message : Bool → Option CatMatch → List RaisedException
cat_message confirmed none = []
cat_message confirmed (some m) =
    raise_if (not confirmed) ExceptionCode.cat_match ExceptionSeverity.info
      (catastrophe_match m.reference m.confidence)

abbrev confidence_message : ℕ → Bool → Option ℕ → List RaisedException
confidence_message threshold failed none = []
confidence_message threshold failed (some confidence) =
    raise_if (ltb confidence threshold && not failed) ExceptionCode.low_extraction_confidence
      ExceptionSeverity.warning (low_confidence confidence)

unfoldable pub collect_signals : Settings → FnolCase → Findings → List RaisedException
collect_signals s c f =
    raise_if (f.severity ∈? (Severity.high ∷ Severity.critical ∷ [])) ExceptionCode.high_severity
      ExceptionSeverity.warning (severity_assessed f.severity)
    ++ (raise_if (f.fraud_level ∈? (RiskLevel.medium ∷ RiskLevel.high ∷ []))
          ExceptionCode.fraud_indicator ExceptionSeverity.warning
          (fraud_indicators f.fraud_level f.fraud_score)
        ++ (raise_if
              (f.coverage
                ∈? (CoverageIndicator.possible_exclusion ∷ CoverageIndicator.review_required ∷ []))
              ExceptionCode.coverage_issue
              (if f.coverage == CoverageIndicator.review_required
                then ExceptionSeverity.warning
                else ExceptionSeverity.critical)
              (coverage_needs_review f.coverage)
            ++ (cat_message c.cat_confirmed f.cat_match
                ++ (confidence_message s.low_confidence_threshold f.extraction_failed
                      f.extraction_confidence
                    ++ raise_if (ltb 0 f.unreadable_documents) ExceptionCode.document_unreadable
                        ExceptionSeverity.info (unreadable f.unreadable_documents)))))

-- `_collect`
unfoldable pub collect : Settings → FnolCase → Findings → List RaisedException
collect s c f =
    collect_extraction f
    ++ (collect_policy c.policy_confirmed f.policy_strength f.policy_candidates
        ++ (collect_dates s c f
            ++ (collect_completeness f ++ (collect_duplicates s f ++ collect_signals s c f))))

abbrev pub codes : List RaisedException → List ExceptionCode
codes = map (λ (e : RaisedException). e.code)

-- The two loops of `evaluate`.
pub upsert_all : ℕ → List RaisedException → Db → Db
upsert_all case_id [] db = db
upsert_all case_id (e ∷ rest) db =
    upsert_all case_id rest
      (upsert_exception case_id e.code e.severity e.message (is_blocking e) db)

pub clear_all : ℕ → List ExceptionCode → Db → Db
clear_all case_id [] db = db
clear_all case_id (code ∷ rest) db = clear_all case_id rest (clear_exception case_id code db)

-- Persist the difference between what is raised and what is stored.
unfoldable pub persist : ℕ → List RaisedException → Db → Db
unfolding upsert_all clear_all
persist case_id raised db =
    clear_all case_id (keep (λ code. not (code ∈? codes raised)) exception_codes)
      (upsert_all case_id raised db)

unfoldable pub evaluate : Settings → FnolCase → Findings → Db → List RaisedException × Db
unfolding collect persist
evaluate s c f db = let raised = collect s c f in (raised, persist c.id raised db)
