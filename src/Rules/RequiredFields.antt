-- ===== src/Rules/RequiredFields.antt =====
-- What a notification has to state before it becomes a claim, by line of business:
-- `app/domain/rules.py`.
use claims_workbench_be.Common.{Bool, true, false, Option, none, some, List, [], ◌∷◌, ◌++◌, String}
use claims_workbench_be.Enums.Assessment.{LineOfBusiness}

pub record RequiredField : Type 0 where
  pub path : String
  pub label : String
  pub critical : Bool
  pub section : String

abbrev pub required : String → String → Bool → String → RequiredField
required path label critical section = record {
  path = path;
  label = label;
  critical = critical;
  section = section;
}

-- `BASE_REQUIRED_FIELDS`
abbrev pub base_required_fields : List RequiredField
base_required_fields =
    required "policy.policy_number" "Policy number" true "policy"
    ∷ required "policy.insured_name" "Insured name" true "policy"
    ∷ required "loss.date_of_loss" "Date of loss" true "loss"
    ∷ required "loss.loss_location" "Loss location" true "loss"
    ∷ required "loss.loss_description" "Description of loss" true "loss"
    ∷ required "loss.cause_of_loss" "Cause of loss" false "loss"
    ∷ required "loss.loss_country" "Country of loss" false "loss"
    ∷ required "notification.reporter_name" "Reporter name" false "notification"
    ∷ required "notification.reporter_email" "Reporter email" false "notification"
    ∷ required "parties.claimant_name" "Claimant / contact" false "parties"
    ∷ required "financial.estimated_loss" "Estimated loss" false "financial"
    ∷ required "documents.supporting" "Supporting documentation" false "documents"
    ∷ []

-- `LOB_REQUIRED_FIELDS.get(line, ())`
unfoldable pub lob_required_fields : LineOfBusiness → List RequiredField
lob_required_fields LineOfBusiness.property =
    required "loss.affected_assets" "Affected property or assets" false "loss"
    ∷ required "financial.repair_estimate" "Repair estimate" false "financial"
    ∷ []
lob_required_fields LineOfBusiness.motor =
    required "loss.affected_assets" "Vehicle details" true "loss"
    ∷ required "additional.police_reference" "Police reference" false "additional"
    ∷ []
lob_required_fields LineOfBusiness.marine =
    required "loss.affected_assets" "Vessel or cargo" true "loss"
    ∷ required "additional.incident_reference" "Incident reference" false "additional"
    ∷ []
lob_required_fields LineOfBusiness.liability =
    required "parties.third_parties" "Third party details" true "parties" ∷ []
lob_required_fields LineOfBusiness.casualty =
    required "parties.third_parties" "Third party details" false "parties"
    ∷ required "loss.injuries" "Injuries reported" false "loss"
    ∷ []
lob_required_fields LineOfBusiness.workers_compensation =
    required "loss.injuries" "Injuries reported" true "loss"
    ∷ required "parties.witnesses" "Witnesses" false "parties"
    ∷ []
lob_required_fields LineOfBusiness.cyber =
    required "additional.incident_reference" "Incident reference" false "additional" ∷ []
lob_required_fields LineOfBusiness.construction =
    required "loss.affected_assets" "Affected works" false "loss" ∷ []
lob_required_fields LineOfBusiness.engineering =
    required "loss.affected_assets" "Affected plant" false "loss" ∷ []
lob_required_fields _ = []

unfoldable pub required_fields : Option LineOfBusiness → List RequiredField
unfolding lob_required_fields
required_fields none = base_required_fields
required_fields (some line) = base_required_fields ++ lob_required_fields line
