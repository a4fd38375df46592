-- ===== src/Examples/Assessed.antt =====
-- A notification assessed: the severity of its loss, and the policy read against it.
use claims_workbench_be.Common.{◌≤◌, true, false, not, ◌&&◌, ◌||◌, some, ◌≡◌, ◌↔◌, all}
use claims_workbench_be.Enums.Assessment.{Severity, CoverageIndicator}
use claims_workbench_be.Model.Case.{Attribute, as_number, as_stamp}
use claims_workbench_be.PolicyMatch.{in_force_on}
use claims_workbench_be.Assessment.SeverityBand.{
  Bands, escalations, money_band, near_limit, assess_severity,
}
use claims_workbench_be.Assessment.SeverityBand.Floors.{within_band, allows, assess_severity_lem}
use claims_workbench_be.Assessment.Coverage.{
  CheckState, needs_attention, peril_state, location_state, status_state, assess_coverage,
}
use claims_workbench_be.Assessment.Coverage.Verdict.{limit_check, assess_coverage_iff}
use claims_workbench_be.Examples.Fixtures.{notice}
use claims_workbench_be.Examples.Policies.{plain_words, policy}

abbrev bands : Bands
bands = record { critical = 100000000; high = 25000000; medium = 2500000 }

assess_severity_lem_example :
    let r = assess_severity bands (some 5000) true notice in
    ((s : Severity)
      → within_band r.severity s ≡ (
          within_band
            (money_band bands (as_number (notice.column Attribute.estimated_loss_minor)))
            s
          && (all (allows s) (escalations notice true)
              && (not (
                    near_limit
                      (some 5000)
                      (as_number (notice.column Attribute.estimated_loss_minor)))
                  || within_band Severity.high s))))
    × (35 ≤ r.confidence)
    × (r.confidence ≤ 95)
assess_severity_lem_example = assess_severity_lem bands (some 5000) true notice

assess_coverage_iff_example :
    ((assess_coverage plain_words notice (some (policy 7 "pol 41")) true).indicator
      ≡ CoverageIndicator.likely_covered)
    ↔ ((in_force_on (as_stamp (notice.column Attribute.date_of_loss)) (policy 7 "pol 41")
          ≡ some true)
        × (peril_state plain_words notice (policy 7 "pol 41") ≡ CheckState.pass)
        × (true ≡ true)
        × (needs_attention (status_state plain_words (policy 7 "pol 41")) ≡ false)
        × (needs_attention (limit_check plain_words notice (policy 7 "pol 41")) ≡ false)
        × (needs_attention (location_state plain_words notice (policy 7 "pol 41")) ≡ false))
assess_coverage_iff_example = assess_coverage_iff plain_words notice (policy 7 "pol 41") true
