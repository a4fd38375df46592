-- ===== src/Assessment/SeverityBand.antt =====
-- `assess_severity` of `app/domain/assessment.py`: the band of a loss.
pub mod Floors
use claims_workbench_be.Common.{
  ℕ, ◌+◌, ◌*◌, Bool, true, false, not, ◌&&◌, ◌||◌, Option, none, some, some_or, List, [], ◌∷◌, ◌++◌,
  String, if◌then◌else◌, ltb, leb,
}
use claims_workbench_be.Enums.Assessment.{Severity, severity_rank}
use claims_workbench_be.Model.Case.{Attribute, Flag, FnolCase, as_number}
use claims_workbench_be.Assessment.{Factor}

-- The three thresholds of the configuration, in minor units.
pub record Bands : Type 0 where
  pub critical : ℕ
  pub high : ℕ
  pub medium : ℕ

pub record SeverityResult : Type 0 where
  pub severity : Severity
  pub confidence : ℕ
  pub factors : List Factor

-- A fact of the loss, whether it applies, and the band that it calls for.
pub record Escalation : Type 0 where
  pub applies : Bool
  pub floor : Severity
  pub factor : Factor

abbrev pub escalation : Bool → Severity → String → ℕ → Escalation
escalation applies floor key weight = record {
  applies = applies;
  floor = floor;
  factor = record { key = key; weight = weight };
}

abbrev pub column_number : FnolCase → Attribute → ℕ
column_number c a = some_or (as_number (c.column a)) 0

unfoldable pub escalations : FnolCase → Bool → List Escalation
escalations c cat_matched =
    escalation (ltb 0 (column_number c Attribute.fatalities)) Severity.critical "fatalities" 100
    ∷ escalation (leb 3 (column_number c Attribute.injuries)) Severity.high "multiple_injuries" 60
    ∷ escalation (ltb 0 (column_number c Attribute.injuries)) Severity.medium "injuries" 35
    ∷ escalation (c.flag Flag.business_interruption) Severity.high "business_interruption" 50
    ∷ escalation (c.flag Flag.structural_damage) Severity.high "structural_damage" 45
    ∷ escalation (c.flag Flag.environmental_exposure) Severity.high "environmental_exposure" 50
    ∷ escalation (c.flag Flag.potential_litigation) Severity.high "litigation" 40
    ∷ escalation cat_matched Severity.high "catastrophe" 40
    ∷ []

-- The band of the money alone.
abbrev pub money_band : Bands → Option ℕ → Severity
money_band bands none = Severity.medium
money_band bands (some estimate) =
    if leb bands.critical estimate
    then Severity.critical
    else if leb bands.high estimate
    then Severity.high
    else if leb bands.medium estimate
    then Severity.medium
    else Severity.low

abbrev pub money_start : Bands → Option ℕ → SeverityResult
money_start bands none = record {
  severity = Severity.medium;
  confidence = 35;
  factors = record { key = "no_estimate"; weight = 0 } ∷ [];
}
money_start bands (some estimate) = record {
  severity = money_band bands (some estimate);
  confidence = 70;
  factors = record { key = "estimated_loss"; weight = 50 } ∷ [];
}

-- The band, or the floor when that ranks above it.
abbrev pub raised_to : Severity → Severity → Severity
raised_to floor band = if ltb (severity_rank band) (severity_rank floor) then floor else band

abbrev pub capped : ℕ → ℕ
capped confidence = if ltb 95 confidence then 95 else confidence

-- One round of the loop over the escalations.
abbrev pub escalate : Escalation → SeverityResult → SeverityResult
escalate e r =
    if e.applies
    then record {
      severity = raised_to e.floor r.severity;
      confidence = capped (r.confidence + 5);
      factors = r.factors ++ (e.factor ∷ []);
    }
    else r

unfoldable pub escalate_all : List Escalation → SeverityResult → SeverityResult
escalate_all [] r = r
escalate_all (e ∷ es) r = escalate_all es (escalate e r)

-- `policy_limit_minor and estimate and estimate >= policy_limit_minor * 0.75`
abbrev pub near_limit : Option ℕ → Option ℕ → Bool
near_limit (some limit) (some estimate) =
    ltb 0 limit && (ltb 0 estimate && leb (3 * limit) (4 * estimate))
near_limit _ _ = false

abbrev pub near_limit_step : Bool → SeverityResult → SeverityResult
near_limit_step true r = record r {
  severity = raised_to Severity.high r.severity;
  factors = r.factors ++ (record { key = "near_policy_limit"; weight = 50 } ∷ []);
}
near_limit_step false r = r

unfoldable pub assess_severity : Bands → Option ℕ → Bool → FnolCase → SeverityResult
unfolding escalations escalate_all
assess_severity bands policy_limit cat_matched c =
    let estimate = as_number (c.column Attribute.estimated_loss_minor) in
    near_limit_step (near_limit policy_limit estimate)
      (escalate_all (escalations c cat_matched) (money_start bands estimate))
