-- ===== src/Triage/Routing.antt =====
-- What `triage` decides, in terms of what it is told.
use claims_workbench_be.Common.{
  ℕ, ◌≤◌, Bool, true, false, ◌&&◌, ◌||◌, not, List, [], ◌∷◌, ◌++◌, ◌≡◌, ◌∈?◌, arith, ◌∙◌, ap,
}
use claims_workbench_be.Enums.Assessment.{Severity, severity_eq, RiskLevel, risk_level_eq}
use claims_workbench_be.Enums.Claims.{TriageCategory, triage_category_eq, Priority}
use claims_workbench_be.Signals.{PythonStrings}
use claims_workbench_be.Triage.{
  RouteDefinition, siu, litigation_desk, major_loss_desk, cat_desk, specialist_desk, complex_desk,
  fast_track, specialist_lines, TriageInput, Tally, severity_is, line_is, fraud_step,
  litigation_step, exposure_step, injury_step, cat_step, specialist_step, default_step, risk_is,
}
use claims_workbench_be.Triage.Classify.{
  route_for, priority_of, triage, tally, is_litigious, is_serious, is_complex, is_exposed,
  is_suspect, dedupe, confidence_of, heaviest,
}

-- The steps, on tests that are given.
abbrev steps : Bool → Bool → Bool → Bool → Bool → Bool → Bool → Bool → Bool → Tally
steps f fh l e k s c p x = default_step x (
    specialist_step p (
      cat_step c (
        injury_step s (
          exposure_step e k
            (litigation_step l (fraud_step f fh (record { categories = []; factors = [] })))))))

abbrev pub when : Bool → TriageCategory → List TriageCategory
when true category = category ∷ []
when false category = []

abbrev pub or_default : Bool → List TriageCategory → List TriageCategory
or_default true [] = TriageCategory.complex ∷ []
or_default false [] = TriageCategory.simple ∷ []
or_default x (category ∷ rest) = category ∷ rest

abbrev pub categories_by : Bool → Bool → Bool → Bool → Bool → Bool → List TriageCategory
categories_by f l m c p x = or_default x (
    when f TriageCategory.fraud_review
    ++ (when l TriageCategory.litigation_risk
        ++ (when m TriageCategory.major_loss
            ++ (when c TriageCategory.cat_claim ++ when p TriageCategory.specialist_required))))

steps_lem :
    (f fh l e k s c p x : Bool)
    → (steps f fh l e k s c p x).categories ≡ categories_by f l (e || (k || s)) c p x
steps_lem false fh l e k s c p x = ground arith
steps_lem true fh l e k s c p x = ground arith

-- The independent reading of the routes: the most specialised desk that a condition names.
abbrev pub desk_for : Bool → Bool → Bool → Bool → Bool → Bool → RouteDefinition
desk_for true l m c p x = siu
desk_for false true m c p x = litigation_desk
desk_for false false true c p x = major_loss_desk
desk_for false false false true p x = cat_desk
desk_for false false false false true x = specialist_desk
desk_for false false false false false true = complex_desk
desk_for false false false false false false = fast_track

route_for-categories_by :
    (f l m c p x : Bool) → route_for (categories_by f l m c p x) ≡ desk_for f l m c p x
unfolding route_for
route_for-categories_by f l m c p x = ground arith

-- The categories of a claim, one by one.
abbrev pub holds : Bool → Bool → Bool → Bool → Bool → Bool → TriageCategory → Bool
holds f l m c p x TriageCategory.fraud_review = f
holds f l m c p x TriageCategory.litigation_risk = l
holds f l m c p x TriageCategory.major_loss = m
holds f l m c p x TriageCategory.cat_claim = c
holds f l m c p x TriageCategory.specialist_required = p
holds f l m c p x TriageCategory.complex = x && not (f || (l || (m || (c || p))))
holds f l m c p x TriageCategory.simple = not x && not (f || (l || (m || (c || p))))

mem-categories_by :
    (f l m c p x : Bool) (d : TriageCategory)
    → (d ∈? categories_by f l m c p x) ≡ holds f l m c p x d
mem-categories_by f l m c p x d = ground arith

dedupe-categories_by :
    (f l m c p x : Bool) → dedupe (categories_by f l m c p x) ≡ categories_by f l m c p x
unfolding dedupe
dedupe-categories_by f l m c p x = ground arith

-- The priority, in terms of what is told.
abbrev pub urgency : Bool → Bool → Bool → Priority
urgency true high standard = Priority.urgent
urgency false true standard = Priority.high
urgency false false true = Priority.standard
urgency false false false = Priority.routine

priority_of-categories_by :
    (critical high medium f l m c p x : Bool)
    → priority_of critical high medium (categories_by f l m c p x)
      ≡ urgency
          (critical || m)
          (high || (f || (l || c)))
          (medium || (x && not (f || (l || (m || (c || p))))))
unfolding priority_of
priority_of-categories_by critical high medium f l m c p x = ground arith

heaviest_bounds :
    (f fh l e k s c p x : Bool)
    → (65 ≤ confidence_of (heaviest 0 (steps f fh l e k s c p x).factors))
      × (confidence_of (heaviest 0 (steps f fh l e k s c p x).factors) ≤ 90)
heaviest_bounds f fh l e k s c p x = (ground arith, ground arith)

module _ (py : PythonStrings) (major_loss_threshold_minor : ℕ) (x : TriageInput) where
  -- A major loss: by its amount, by its severity, or by an injury.
  abbrev pub is_major : Bool
  is_major =
      is_exposed py major_loss_threshold_minor x
      || (severity_is x.severity Severity.critical || is_serious py major_loss_threshold_minor x)

  abbrev pub is_special : Bool
  is_special = line_is x.line_of_business specialist_lines

  tally-categories :
      (tally py major_loss_threshold_minor x).categories
      ≡ categories_by
          (is_suspect py major_loss_threshold_minor x)
          (is_litigious py major_loss_threshold_minor x)
          is_major
          x.cat_matched
          is_special
          (is_complex py major_loss_threshold_minor x)
  tally-categories =
      steps_lem (is_suspect py major_loss_threshold_minor x)
        (risk_is x.fraud_risk (RiskLevel.high ∷ [])) (is_litigious py major_loss_threshold_minor x)
        (is_exposed py major_loss_threshold_minor x) (severity_is x.severity Severity.critical)
        (is_serious py major_loss_threshold_minor x) x.cat_matched is_special
        (is_complex py major_loss_threshold_minor x)

  -- The route is the desk of the most specialised condition that holds: fraud before litigation, before
  -- a major loss, before a catastrophe, before a specialist line; without any of these the complex desk
  -- or the fast track.
  pub route-triage :
      (triage py major_loss_threshold_minor x).route
      ≡ desk_for
          (is_suspect py major_loss_threshold_minor x)
          (is_litigious py major_loss_threshold_minor x)
          is_major
          x.cat_matched
          is_special
          (is_complex py major_loss_threshold_minor x)
  unfolding triage
  route-triage = ap route_for tally-categories ∙ route_for-categories_by _ _ _ _ _ _

  -- A category is on the claim exactly when its condition holds; `complex` and `simple` stand alone,
  -- and one of them is there when no other is.
  pub categories-triage :
      (d : TriageCategory)
      → (d ∈? (triage py major_loss_threshold_minor x).categories)
        ≡ holds
            (is_suspect py major_loss_threshold_minor x)
            (is_litigious py major_loss_threshold_minor x)
            is_major
            x.cat_matched
            is_special
            (is_complex py major_loss_threshold_minor x)
            d
  unfolding triage
  categories-triage d =
      ap (λ cs. d ∈? dedupe cs) tally-categories
      ∙ (ap (λ cs. d ∈? cs) (dedupe-categories_by _ _ _ _ _ _) ∙ mem-categories_by _ _ _ _ _ _ d)

  -- The priority is urgent for a critical severity or a major loss; else high for a high severity, a
  -- fraud or litigation signal or a catastrophe; else standard for a medium severity or a complex
  -- claim; else routine.
  pub priority-triage :
      (triage py major_loss_threshold_minor x).priority
      ≡ urgency
          (severity_is x.severity Severity.critical || is_major)
          (severity_is x.severity Severity.high
            || (is_suspect py major_loss_threshold_minor x
                || (is_litigious py major_loss_threshold_minor x || x.cat_matched)))
          (severity_is x.severity Severity.medium
            || (is_complex py major_loss_threshold_minor x
                && not (
                    is_suspect py major_loss_threshold_minor x
                    || (is_litigious py major_loss_threshold_minor x
                        || (is_major || (x.cat_matched || is_special))))))
  unfolding triage
  priority-triage =
      ap
        (priority_of (severity_is x.severity Severity.critical)
          (severity_is x.severity Severity.high) (severity_is x.severity Severity.medium))
        tally-categories
      ∙ priority_of-categories_by (severity_is x.severity Severity.critical)
          (severity_is x.severity Severity.high) (severity_is x.severity Severity.medium)
          (is_suspect py major_loss_threshold_minor x)
          (is_litigious py major_loss_threshold_minor x) is_major x.cat_matched is_special
          (is_complex py major_loss_threshold_minor x)

  -- The confidence lies between 65 and 90 hundredths, so the cap of 95 is never met.
  pub confidence-triage :
      (65 ≤ (triage py major_loss_threshold_minor x).confidence)
      × ((triage py major_loss_threshold_minor x).confidence ≤ 90)
  unfolding triage
  confidence-triage =
      heaviest_bounds (is_suspect py major_loss_threshold_minor x)
        (risk_is x.fraud_risk (RiskLevel.high ∷ [])) (is_litigious py major_loss_threshold_minor x)
        (is_exposed py major_loss_threshold_minor x) (severity_is x.severity Severity.critical)
        (is_serious py major_loss_threshold_minor x) x.cat_matched is_special
        (is_complex py major_loss_threshold_minor x)
