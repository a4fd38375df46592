-- ===== src/Exceptions/Stages.antt =====
-- Which blocking codes each stage of `_collect` of `app/services/fnol/exceptions.py` raises.
use claims_workbench_be.Common.{
  ℕ, ◌≡◌, refl, ◌∙◌, Bool, true, false, ◌&&◌, ◌||◌, not, List, [], ◌∷◌, ◌++◌, map, Option, subst,
  eq_cases, inl, inr, ltb, some, none, ◌==◌, ◌∈?◌, is_empty, mem-append, and_false, or_false,
}
use mathlib.Core.List.{map-append}
use claims_workbench_be.Enums.Intake.{ExceptionCode, exception_code_eq, ExceptionSeverity}
use claims_workbench_be.Enums.Assessment.{policy_match_strength_eq}
use claims_workbench_be.Lifecycle.{blocking_exceptions}
use claims_workbench_be.Model.Case.{FnolCase, Attribute, as_number, as_stamp}
use claims_workbench_be.Model.Rows.{
  Message, FnolDuplicateCandidate, loss_in_the_future, conflicting_information,
}
use claims_workbench_be.Model.Claims.{Policy}
use claims_workbench_be.Completeness.{missing_critical, loss_after_received}
use claims_workbench_be.Exceptions.{
  RaisedException, CatMatch, Settings, Findings, raise_if, collect_extraction, collect_policy,
  collect_dates, collect_completeness, collect_duplicates, collect_signals, collect, codes,
  unresolved, period_message, limit_message, duplicate_message, cat_message, confidence_message,
}

-- Membership of a code in what a stage raises.
abbrev pub raises : List RaisedException → ExceptionCode → Bool
raises raised d = d ∈? codes raised

raises-append :
    (xs ys : List RaisedException) (d : ExceptionCode)
    → raises (xs ++ ys) d ≡ (raises xs d || raises ys d)
raises-append xs ys d = rw map-append (mem-append d (codes xs) (codes ys))

raises-raise_if :
    (b : Bool) (c : ExceptionCode) (s : ExceptionSeverity) (m : Message) (d : ExceptionCode)
    → raises (raise_if b c s m) d ≡ (b && d == c)
raises-raise_if true c s m d = rw (or_false (d == c))
raises-raise_if false c s m d = refl

raises-collect :
    (s : Settings) (c : FnolCase) (f : Findings) (d : ExceptionCode)
    → raises (collect s c f) d ≡ (
        raises (collect_extraction f) d
        || (raises (collect_policy c.policy_confirmed f.policy_strength f.policy_candidates) d
            || (raises (collect_dates s c f) d
                || (raises (collect_completeness f) d
                    || (raises (collect_duplicates s f) d || raises (collect_signals s c f) d)))))
unfolding collect
raises-collect s c f d = simp raises-append

-- A list that raises no blocking code.
record IsQuiet (xs : List RaisedException) : Type 0 where
  silent : (d : ExceptionCode) → (d ∈? blocking_exceptions) ≡ true → raises xs d ≡ false

nil-IsQuiet : IsQuiet []
nil-IsQuiet = record { silent = λ d h. refl }

append-IsQuiet : {xs ys : List RaisedException} → IsQuiet xs → IsQuiet ys → IsQuiet (xs ++ ys)
append-IsQuiet {xs} {ys} h k = record {
  silent = λ d b. raises-append xs ys d ∙ rw (h.silent d b, k.silent d b);
}

raise_if_silent :
    (b : Bool) (c : ExceptionCode) (s : ExceptionSeverity) (m : Message)
    → (c ∈? blocking_exceptions) ≡ false
    → (d : ExceptionCode) → (d ∈? blocking_exceptions) ≡ true
    → raises (raise_if b c s m) d ≡ false
raise_if_silent b c s m n d h = raises-raise_if b c s m d ∙ elim (eq_cases d c) [
  | inl (t, same) ↦
      let t : (c ∈? blocking_exceptions) ≡ true =
        subst (λ x. (x ∈? blocking_exceptions) ≡ true) same h in
      cc
  | inr (f, other) ↦ rw f (and_false b)
]

raise_if-IsQuiet :
    (b : Bool) (c : ExceptionCode) (s : ExceptionSeverity) (m : Message)
    → (c ∈? blocking_exceptions) ≡ false
    → IsQuiet (raise_if b c s m)
raise_if-IsQuiet b c s m n = record { silent = raise_if_silent b c s m n }

cat_message-IsQuiet : (b : Bool) (m : Option CatMatch) → IsQuiet (cat_message b m)
cat_message-IsQuiet b none = nil-IsQuiet
cat_message-IsQuiet b (some m) = raise_if-IsQuiet (not b) ExceptionCode.cat_match _ _ refl

confidence_message-IsQuiet : (t : ℕ) (b : Bool) (m : Option ℕ) → IsQuiet (confidence_message t b m)
confidence_message-IsQuiet t b none = nil-IsQuiet
confidence_message-IsQuiet t b (some n) =
    raise_if-IsQuiet (ltb n t && not b) ExceptionCode.low_extraction_confidence _ _ refl

period_message-IsQuiet : (p : Option Policy) (t : Option ℕ) → IsQuiet (period_message p t)
period_message-IsQuiet none t = nil-IsQuiet
period_message-IsQuiet (some p) none = nil-IsQuiet
period_message-IsQuiet (some p) (some t) =
    raise_if-IsQuiet _ ExceptionCode.outside_policy_period _ _ refl

limit_message-IsQuiet : (p : Option Policy) (n : Option ℕ) → IsQuiet (limit_message p n)
limit_message-IsQuiet none n = nil-IsQuiet
limit_message-IsQuiet (some p) n = raise_if-IsQuiet _ ExceptionCode.exceeds_policy_limit _ _ refl

signals-IsQuiet : (s : Settings) (c : FnolCase) (f : Findings) → IsQuiet (collect_signals s c f)
unfolding collect_signals
signals-IsQuiet s c f = append-IsQuiet (raise_if-IsQuiet _ ExceptionCode.high_severity _ _ refl) (
    append-IsQuiet (raise_if-IsQuiet _ ExceptionCode.fraud_indicator _ _ refl) (
      append-IsQuiet (raise_if-IsQuiet _ ExceptionCode.coverage_issue _ _ refl) (
        append-IsQuiet (cat_message-IsQuiet c.cat_confirmed f.cat_match) (
          append-IsQuiet
            (confidence_message-IsQuiet s.low_confidence_threshold f.extraction_failed
              f.extraction_confidence)
            (raise_if-IsQuiet _ ExceptionCode.document_unreadable _ _ refl)))))

IsQuiet-dates :
    (s : Settings) (c : FnolCase) (f : Findings)
    → IsQuiet (
        raise_if
          (not (is_empty f.completeness.conflicting))
          ExceptionCode.conflicting_dates
          ExceptionSeverity.warning
          (conflicting_information (map (λ s. s.path) f.completeness.conflicting))
        ++ (period_message f.policy (as_stamp (c.column Attribute.date_of_loss))
            ++ limit_message f.policy (as_number (c.column Attribute.estimated_loss_minor))))
IsQuiet-dates s c f = append-IsQuiet (raise_if-IsQuiet _ ExceptionCode.conflicting_dates _ _ refl) (
    append-IsQuiet (period_message-IsQuiet f.policy (as_stamp (c.column Attribute.date_of_loss)))
      (limit_message-IsQuiet f.policy (as_number (c.column Attribute.estimated_loss_minor))))

-- The date of loss reads as later than the notification, or as a date to come.
abbrev pub future_loss : Settings → FnolCase → Findings → Bool
future_loss s c f = s.is_future_date f.raw_loss_date || loss_after_received c

module _ (s : Settings) (c : FnolCase) (f : Findings) (d : ExceptionCode)
    (blocks : (d ∈? blocking_exceptions) ≡ true) where
  raises-extraction : raises (collect_extraction f) d ≡ false
  unfolding collect_extraction
  raises-extraction =
      (raise_if-IsQuiet _ ExceptionCode.ai_processing_failed _ _ refl).silent d blocks

  raises-dates :
      raises (collect_dates s c f) d ≡ (future_loss s c f && d == ExceptionCode.future_loss_date)
  unfolding collect_dates
  raises-dates =
      let first =
        raises-raise_if (future_loss s c f) ExceptionCode.future_loss_date
          ExceptionSeverity.critical (loss_in_the_future f.raw_loss_date) d in
      rw (raises-append, first, (IsQuiet-dates s c f).silent d blocks)
        (or_false (future_loss s c f && d == ExceptionCode.future_loss_date))

  raises-completeness : raises (collect_completeness f) d ≡ (
      not (is_empty (missing_critical f.completeness))
      && d == ExceptionCode.missing_critical_information)
  unfolding collect_completeness
  raises-completeness = raises-raise_if _ ExceptionCode.missing_critical_information _ _ d

  raises-duplicate_message :
      (t : ℕ) (us : List FnolDuplicateCandidate)
      → raises (duplicate_message t us) d
        ≡ (not (is_empty us) && d == ExceptionCode.possible_duplicate)
  raises-duplicate_message t [] = refl
  raises-duplicate_message t (u ∷ us) = or_false (d == ExceptionCode.possible_duplicate)

  pub raises-collect_blocking : raises (collect s c f) d ≡ (
      raises (collect_policy c.policy_confirmed f.policy_strength f.policy_candidates) d
      || (future_loss s c f && d == ExceptionCode.future_loss_date
          || (not (is_empty (missing_critical f.completeness))
                && d == ExceptionCode.missing_critical_information
              || (not (is_empty (unresolved f.duplicates))
                  && d == ExceptionCode.possible_duplicate))))
  unfolding collect_duplicates
  raises-collect_blocking =
      raises-collect s c f d
      ∙ rw (
        raises-extraction,
        raises-dates,
        raises-completeness,
        raises-duplicate_message s.duplicate_strong_threshold (unresolved f.duplicates),
        (signals-IsQuiet s c f).silent d blocks,
        or_false,
      )
