-- ===== src/TriageService.antt =====
-- `TriageService` and `AssignmentService` of `app/services/fnol/triage.py`.
pub mod Kept
pub mod Overridden
pub mod Assignment
pub mod Owned
use claims_workbench_be.Common.{
  ℕ, ◌+◌, Bool, true, false, not, ◌&&◌, Option, none, some, some_or, or_else, is_some, List, [],
  String, nat_eq, ◌==◌, ◌∈?◌, if◌then◌else◌, ltb,
}
use claims_workbench_be.Common.Table.{modify, upsert, upserted}
use claims_workbench_be.Enums.Assessment.{line_of_business_of, severity_of, risk_level_of}
use claims_workbench_be.Enums.Claims.{
  ClaimStatus, Priority, TriageCategory, triage_category_eq, AssignmentStatus, assignment_status_eq,
  AssignmentStrategy,
}
use claims_workbench_be.Model.Case.{
  FnolCase, as_number, injuries, fatalities, business_interruption, potential_litigation,
  holds_text,
}
use claims_workbench_be.Model.Claims.{Claim, ClaimTriage, ClaimAssignment, Handler}
use claims_workbench_be.Model.Db.{Db}
use claims_workbench_be.Repository.Claims.{
  claim_key, triage_key, assignment_key, get_triage, get_assignment, get_handler, list_available,
  increment_workload, update_claim,
}
use claims_workbench_be.Signals.{PythonStrings, text_signals}
use claims_workbench_be.Triage.{RouteDefinition, TriageInput, TriageResult}
use claims_workbench_be.Triage.Classify.{triage}
use claims_workbench_be.Triage.Handlers.{
  HandlerScore, AssignmentRecommendation, recommend_assignment,
}

-- `_severity`, `_line` and `_risk`.
abbrev pub read {ℓ} : {A : Type ℓ} → (String → Option A) → Option String → Option A
read parse none = none
read parse (some value) = parse value

module _ (py : PythonStrings) where
  abbrev pub triage_input : Claim → FnolCase → TriageInput
  triage_input claim c = record {
    severity = read severity_of claim.severity;
    estimated_loss_minor = some claim.reserve_minor;
    line_of_business = read line_of_business_of claim.line_of_business;
    fraud_risk = read risk_level_of c.fraud_risk;
    cat_matched = is_some claim.cat_event_id;
    injuries = as_number (c.column injuries);
    fatalities = as_number (c.column fatalities);
    business_interruption = c.flag business_interruption;
    potential_litigation = c.flag potential_litigation;
    text = text_signals py c;
  }

-- A row that `run` fills from a result.
abbrev pub filled_triage : TriageResult → ClaimTriage → ClaimTriage
filled_triage r t = record t {
  categories = r.categories;
  recommended_route = r.route.label;
  recommended_route_key = r.route.key;
  recommended_priority = r.priority;
  required_skill = r.route.required_skill;
  required_team = some r.route.team;
  confidence = r.confidence;
}

-- `ClaimTriage(claim_id=…)` with the defaults of its columns.
abbrev pub new_triage : ℕ → ClaimTriage
new_triage id = record {
  claim_id = id;
  categories = [];
  recommended_route = "";
  recommended_route_key = "";
  recommended_priority = Priority.standard;
  required_skill = none;
  required_team = none;
  confidence = 0;
  overridden = false;
  overridden_by = none;
  override_reason = none;
  original_route = none;
}

-- What `run` does to a row: of an overridden one it refreshes the categories alone.
abbrev pub retriaged : TriageResult → ClaimTriage → ClaimTriage
retriaged r t = if t.overridden then record t { categories = r.categories } else filled_triage r t

abbrev pub is_overridden : Option ClaimTriage → Bool
is_overridden none = false
is_overridden (some t) = t.overridden

abbrev pub triaged_claim : TriageResult → Claim → Claim
triaged_claim r claim = record claim {
  priority = r.priority;
  status = ClaimStatus.classified;
  fraud_flag = TriageCategory.fraud_review ∈? r.categories;
}

-- Write the result of `triage`, the last part of `run`.
unfoldable pub store_triage : TriageResult → ℕ → Db → ClaimTriage × Db
store_triage r id db =
    let existing = get_triage id db in
    let row = upserted triage_key (filled_triage r (new_triage id)) (retriaged r) existing in
    let stored : Db = record db {
      triages = upsert triage_key id (filled_triage r (new_triage id)) (retriaged r) db.triages;
      claims =
          if is_overridden existing
          then db.claims
          else modify claim_key id (triaged_claim r) db.claims;
    } in
    (row, stored)

unfoldable pub run : PythonStrings → ℕ → Claim → FnolCase → Db → ClaimTriage × Db
unfolding store_triage
run py major_loss_threshold_minor claim c db =
    store_triage (triage py major_loss_threshold_minor (triage_input py claim c)) claim.id db

abbrev pub overridden_by_hand :
    String → String → Priority → String → String → ClaimTriage → ClaimTriage
overridden_by_hand route_key route_label priority reason actor t = record t {
  original_route = if t.overridden then t.original_route else some t.recommended_route;
  recommended_route = route_label;
  recommended_route_key = route_key;
  recommended_priority = priority;
  overridden = true;
  overridden_by = some actor;
  override_reason = some reason;
}

-- `override`; the guard is the caller's `None`.
unfoldable pub override :
    ℕ → String → String → Priority → String → String → Db → Option ClaimTriage × Db
override id route_key route_label priority reason actor db = elim (get_triage id db) [
  | none ↦ (none, db)
  | some t ↦
      let changed = overridden_by_hand route_key route_label priority reason actor in
      (
        some (changed t),
        update_claim id (λ (claim : Claim). record claim { priority = priority })
            (record db { triages = modify triage_key id changed db.triages }),
      )
]
