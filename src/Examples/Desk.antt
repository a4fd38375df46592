-- ===== src/Examples/Desk.antt =====
-- A claim with its triage and assignment, for the examples on claims.
use claims_workbench_be.Common.{
  ℕ, Bool, true, false, none, some, List, [], ◌∷◌, String, ◌==◌, string_eq,
}
use claims_workbench_be.Enums.Assessment.{Severity, LineOfBusiness, RiskLevel}
use claims_workbench_be.References.{claim_prefix, format_reference}
use claims_workbench_be.Model.Claims.{Claim, ClaimTriage, ClaimAssignment, Handler}
use claims_workbench_be.Model.Db.{Db}
use claims_workbench_be.Signals.{PythonStrings}
use claims_workbench_be.Triage.{TriageInput}
use claims_workbench_be.TriageService.{new_triage}
use claims_workbench_be.TriageService.Assignment.{new_assignment}
use claims_workbench_be.ClaimCreation.Create.{Request, new_claim}
use claims_workbench_be.Examples.Fixtures.{notice, desk}

-- Text functions that leave a text as it is; a text contains itself.
abbrev pub plain_strings : PythonStrings
plain_strings = record {
  nfkd = λ s. s;
  drop_combining = λ s. s;
  strip = λ s. s;
  lower = λ s. s;
  collapse = λ s. s;
  join = λ parts. "";
  contains = λ text part. text == part;
}

-- A critical marine loss with a suspicion of fraud.
abbrev pub marine_loss : TriageInput
marine_loss = record {
  severity = some Severity.critical;
  estimated_loss_minor = some 1000;
  line_of_business = some LineOfBusiness.marine;
  fraud_risk = some RiskLevel.medium;
  cat_matched = false;
  injuries = none;
  fatalities = some 0;
  business_interruption = false;
  potential_litigation = false;
  text = "solicitor";
}

abbrev pub handler : ℕ → Bool → ℕ → List String → Handler
handler id active open_claims skills = record {
  id = id;
  full_name = "R. Okafor";
  team = "SIU";
  active = active;
  skills = skills;
  lines_of_business = "property" ∷ [];
  countries = [];
  max_severity = "high";
  capacity = 25;
  open_claims = open_claims;
  authority_limit_minor = some 100000;
}

abbrev pub handlers : List Handler
handlers =
    handler 1 true 25 ("fraud_investigation" ∷ [])
    ∷ handler 2 true 3 ("fraud_investigation" ∷ [])
    ∷ []

abbrev pub claim : Claim
claim = new_claim 20 (format_reference claim_prefix 2026 7) none "a.officer" notice

abbrev pub triage_row : ClaimTriage
triage_row = record (new_triage 20) { recommended_route = "Fast Track"; overridden = true }

abbrev pub assignment_row : ClaimAssignment
assignment_row = record (new_assignment 20) { handler_id = some 2 }

-- The notice has become a claim, whose triage a manager has overridden.
abbrev pub claims_desk : Db
claims_desk = record desk {
  claims = claim ∷ [];
  triages = triage_row ∷ [];
  assignments = assignment_row ∷ [];
  handlers = handlers;
}

abbrev pub first_request : Request
first_request = record { actor = "a.officer"; idempotency_key = some "k"; year = 2026 }

abbrev pub second_request : Request
second_request = record { actor = "b.officer"; idempotency_key = none; year = 2026 }
