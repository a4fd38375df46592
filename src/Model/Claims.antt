-- ===== src/Model/Claims.antt =====
-- `Claim`, `ClaimTriage` and `ClaimAssignment` of `app/models/claim.py`, and what is read of a
-- `Handler` and a `Policy` of `app/models/reference_data.py`.
use claims_workbench_be.Common.{ℕ, Bool, Option, List, String}
use claims_workbench_be.References.{Text}
use claims_workbench_be.Enums.Claims.{
  ClaimStatus, Priority, TriageCategory, AssignmentStatus, AssignmentStrategy,
}

pub record Claim : Type 0 where
  pub id : ℕ
  pub reference : Text
  pub fnol_case_id : ℕ
  pub status : ClaimStatus
  pub priority : Priority
  pub policy_id : Option ℕ
  pub policy_number : Option String
  pub insured_name : Option String
  pub claimant_name : Option String
  pub line_of_business : Option String
  pub claim_type : Option String
  pub loss_type : Option String
  pub loss_description : Option String
  pub loss_location : Option String
  pub loss_country : Option String
  pub date_of_loss : Option ℕ
  pub reported_at : ℕ
  pub severity : Option String
  pub reserve_minor : ℕ
  pub currency : String
  pub cat_event_id : Option ℕ
  pub fraud_flag : Bool
  pub over_authority : Bool
  pub created_by : String
  pub handler_name : Option String

-- The confidence is in hundredths; the factors and the reasoning are left out.
pub record ClaimTriage : Type 0 where
  pub claim_id : ℕ
  pub categories : List TriageCategory
  pub recommended_route : String
  pub recommended_route_key : String
  pub recommended_priority : Priority
  pub required_skill : Option String
  pub required_team : Option String
  pub confidence : ℕ
  pub overridden : Bool
  pub overridden_by : Option String
  pub override_reason : Option String
  pub original_route : Option String

-- A queue is the team it is named after; the confidence, the reasoning and the alternatives are left
-- out.
pub record ClaimAssignment : Type 0 where
  pub claim_id : ℕ
  pub handler_id : Option ℕ
  pub handler_name : Option String
  pub team : Option String
  pub queue : Option String
  pub status : AssignmentStatus
  pub strategy : Option AssignmentStrategy
  pub assigned_by : Option String
  pub assigned_at : Option ℕ

pub record Handler : Type 0 where
  pub id : ℕ
  pub full_name : String
  pub team : String
  pub active : Bool
  pub skills : List String
  pub lines_of_business : List String
  pub countries : List String
  pub max_severity : String
  pub capacity : ℕ
  pub open_claims : ℕ
  pub authority_limit_minor : Option ℕ

pub record Policy : Type 0 where
  pub id : ℕ
  pub policy_number : String
  pub insured_name : String
  pub insured_organisation : Option String
  pub insured_email : Option String
  pub broker_name : Option String
  pub primary_location : Option String
  pub effective_date : ℕ
  pub expiry_date : ℕ
  pub limit_amount_minor : Option ℕ
  pub deductible_amount_minor : Option ℕ
  pub status : String
  pub perils_covered : List String
  pub exclusions : List String
  pub region : Option String
  pub country : Option String
  pub addresses : List String
  pub line_of_business : String
