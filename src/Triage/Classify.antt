-- ===== src/Triage/Classify.antt =====
-- `triage` of `app/domain/triage.py` with `_route_for`, `_priority` and `_dedupe`.
use claims_workbench_be.Common.{
  ℕ, ◌+◌, ◌*◌, Bool, ◌||◌, List, [], ◌∷◌, ◌∈?◌, any, if◌then◌else◌, ltb,
}
use claims_workbench_be.Enums.Assessment.{Severity, severity_eq, RiskLevel, risk_level_eq}
use claims_workbench_be.Enums.Claims.{TriageCategory, triage_category_eq, Priority}
use claims_workbench_be.Signals.{PythonStrings, has_litigation_signal, has_serious_injury_signal}
use claims_workbench_be.Triage.{
  RouteDefinition, routes, fast_track, specialist_lines, TriageFactor, TriageResult, TriageInput,
  Tally, risk_is, severity_is, line_is, reaches, positive, fraud_step, litigation_step,
  exposure_step, injury_step, cat_step, specialist_step, default_step,
}

abbrev pub route_in :
    List (TriageCategory × RouteDefinition) → List TriageCategory → RouteDefinition
route_in [] present = fast_track
route_in ((required, route) ∷ rest) present =
    if required ∈? present then route else route_in rest present

unfoldable pub route_for : List TriageCategory → RouteDefinition
route_for = route_in routes

-- Whether two sets meet.
abbrev pub meets : List TriageCategory → List TriageCategory → Bool
meets present wanted = any (λ category. category ∈? present) wanted

unfoldable pub priority_of : Bool → Bool → Bool → List TriageCategory → Priority
priority_of is_critical is_high is_medium present =
    if is_critical || TriageCategory.major_loss ∈? present
    then Priority.urgent
    else if is_high
        || meets present (
            TriageCategory.fraud_review ∷ TriageCategory.litigation_risk ∷ TriageCategory.cat_claim
            ∷ [])
    then Priority.high
    else if is_medium || TriageCategory.complex ∈? present
    then Priority.standard
    else Priority.routine

-- `_dedupe`, with the set of what was seen.
abbrev pub dedupe_from : List TriageCategory → List TriageCategory → List TriageCategory
dedupe_from seen [] = []
dedupe_from seen (category ∷ rest) =
    if category ∈? seen
    then dedupe_from seen rest
    else category ∷ dedupe_from (category ∷ seen) rest

unfoldable pub dedupe : List TriageCategory → List TriageCategory
dedupe = dedupe_from []

abbrev pub heaviest : ℕ → List TriageFactor → ℕ
heaviest best [] = best
heaviest best (f ∷ rest) = heaviest (if ltb best f.weight then f.weight else best) rest

-- `min(0.95, 0.4 + 0.5 * weight)` in hundredths.
abbrev pub confidence_of : ℕ → ℕ
confidence_of weight = let raw = 40 + 5 * weight in if ltb raw 95 then raw else 95

module _ (py : PythonStrings) (major_loss_threshold_minor : ℕ) where
  abbrev pub is_litigious : TriageInput → Bool
  is_litigious x = x.potential_litigation || has_litigation_signal py x.text

  abbrev pub is_serious : TriageInput → Bool
  is_serious x = positive x.fatalities || has_serious_injury_signal py x.text

  abbrev pub is_complex : TriageInput → Bool
  is_complex x =
      x.business_interruption || (positive x.injuries || severity_is x.severity Severity.high)

  abbrev pub is_exposed : TriageInput → Bool
  is_exposed x = reaches x.estimated_loss_minor major_loss_threshold_minor

  abbrev pub is_suspect : TriageInput → Bool
  is_suspect x = risk_is x.fraud_risk (RiskLevel.high ∷ RiskLevel.medium ∷ [])

  -- The body of `triage` up to the choice of the route.
  abbrev pub tally : TriageInput → Tally
  tally x = default_step (is_complex x) (
      specialist_step (line_is x.line_of_business specialist_lines) (
        cat_step x.cat_matched (
          injury_step (is_serious x) (
            exposure_step (is_exposed x) (severity_is x.severity Severity.critical) (
              litigation_step (is_litigious x) (
                fraud_step (is_suspect x) (risk_is x.fraud_risk (RiskLevel.high ∷ []))
                  (record { categories = []; factors = [] })))))))

  unfoldable pub triage : TriageInput → TriageResult
  unfolding route_for priority_of dedupe
  triage x =
      let t = tally x in
      record {
        categories = dedupe t.categories;
        route = route_for t.categories;
        priority =
            priority_of (severity_is x.severity Severity.critical)
              (severity_is x.severity Severity.high) (severity_is x.severity Severity.medium)
              t.categories;
        confidence = confidence_of (heaviest 0 t.factors);
        factors = t.factors;
      }
