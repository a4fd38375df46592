-- ===== src/TriageService/Assignment.antt =====
-- `AssignmentService` of `app/services/fnol/triage.py`.
use claims_workbench_be.Common.{
  ℕ, Bool, true, false, not, ◌&&◌, Option, none, some, some_or, or_else, String, nat_eq, ◌==◌,
  if◌then◌else◌, ltb,
}
use claims_workbench_be.Common.Table.{modify, upsert, upserted}
use claims_workbench_be.Enums.Assessment.{line_of_business_of, severity_of}
use claims_workbench_be.Enums.Claims.{
  ClaimStatus, AssignmentStatus, assignment_status_eq, AssignmentStrategy,
}
use claims_workbench_be.Model.Case.{holds_text}
use claims_workbench_be.Model.Claims.{Claim, ClaimTriage, ClaimAssignment, Handler}
use claims_workbench_be.Model.Db.{Db}
use claims_workbench_be.Repository.Claims.{
  assignment_key, get_assignment, get_handler, list_available, increment_workload, update_claim,
}
use claims_workbench_be.Triage.{RouteDefinition}
use claims_workbench_be.Triage.Handlers.{
  HandlerScore, AssignmentRecommendation, recommend_assignment,
}
use claims_workbench_be.TriageService.{read}

-- The route of `_as_triage_result`, which is all that the scoring reads of it.
abbrev pub route_of : ClaimTriage → RouteDefinition
route_of t = record {
  key = t.recommended_route_key;
  label = t.recommended_route;
  team = if holds_text t.required_team then some_or t.required_team "" else t.recommended_route;
  required_skill = t.required_skill;
}

abbrev pub recommended_to :
    AssignmentRecommendation → Option HandlerScore → ClaimAssignment → ClaimAssignment
recommended_to r (some h) a = record a {
  team = some r.team;
  queue = some r.team;
  strategy = some r.strategy;
  handler_id = some h.handler_id;
  handler_name = some h.name;
  status = AssignmentStatus.recommended;
}
recommended_to r none a = record a {
  team = some r.team;
  queue = some r.team;
  strategy = some r.strategy;
  handler_id = none;
  handler_name = none;
  status = AssignmentStatus.unassigned;
}

abbrev pub new_assignment : ℕ → ClaimAssignment
new_assignment id = record {
  claim_id = id;
  handler_id = none;
  handler_name = none;
  team = none;
  queue = none;
  status = AssignmentStatus.recommended;
  strategy = none;
  assigned_by = none;
  assigned_at = none;
}

-- A claim that a person owns keeps its assignment.
abbrev pub reassigned : AssignmentRecommendation → ClaimAssignment → ClaimAssignment
reassigned r a = if a.status == AssignmentStatus.assigned then a else recommended_to r r.handler a

abbrev pub recommendation_for :
    (String → String) → Claim → ClaimTriage → Db → AssignmentRecommendation
recommendation_for lower claim t db =
    recommend_assignment lower (route_of t) (read severity_of claim.severity)
      (read line_of_business_of claim.line_of_business) claim.loss_country (list_available db)

unfoldable pub store_recommendation : AssignmentRecommendation → ℕ → Db → ClaimAssignment × Db
store_recommendation r id db =
    let first = recommended_to r r.handler (new_assignment id) in
    (
      upserted assignment_key first (reassigned r) (get_assignment id db),
      record db { assignments = upsert assignment_key id first (reassigned r) db.assignments },
    )

unfoldable pub recommend : (String → String) → Claim → ClaimTriage → Db → ClaimAssignment × Db
unfolding store_recommendation
recommend lower claim t db = store_recommendation (recommendation_for lower claim t db) claim.id db

-- Whether a handler was named who is not the one recommended.
abbrev pub by_hand : Option ℕ → Option ℕ → Bool
by_hand none previous = false
by_hand (some id) none = true
by_hand (some id) (some previous) = not (id == previous)

abbrev pub owned_by : Handler → Option ℕ → String → ℕ → ClaimAssignment → ClaimAssignment
owned_by h handler_id actor now a = record a {
  handler_id = some h.id;
  handler_name = some h.full_name;
  team = some h.team;
  status = AssignmentStatus.assigned;
  assigned_by = some actor;
  assigned_at = some now;
  strategy = if by_hand handler_id a.handler_id then some AssignmentStrategy.manual else a.strategy;
}

abbrev pub handled_claim : Handler → Claim → Claim
handled_claim h claim = record claim {
  handler_name = some h.full_name;
  status = ClaimStatus.in_review;
  over_authority =
      let limit = some_or h.authority_limit_minor 0 in
      if ltb 0 claim.reserve_minor && ltb 0 limit
      then ltb limit claim.reserve_minor
      else claim.over_authority;
}

abbrev pub hand_over : ℕ → Handler → Option ℕ → String → ℕ → Db → Db
hand_over id h handler_id actor now db = increment_workload h.id 1 (
    update_claim id (handled_claim h) (record db {
      assignments = modify assignment_key id (owned_by h handler_id actor now) db.assignments;
    }))

-- `assign`, guard by guard.
abbrev pub assign_to :
    ℕ → ClaimAssignment → Option Handler → Option ℕ → String → ℕ → Db → Option ClaimAssignment × Db
assign_to id a none handler_id actor now db = (none, db)
assign_to id a (some h) handler_id actor now db =
    (some (owned_by h handler_id actor now a), hand_over id h handler_id actor now db)

abbrev pub target_handler : Option ℕ → Db → Option Handler
target_handler none db = none
target_handler (some id) db = get_handler id db

unfoldable pub assign : ℕ → Option ℕ → String → ℕ → Db → Option ClaimAssignment × Db
assign id handler_id actor now db = elim (get_assignment id db) [
  | none ↦ (none, db)
  | some a ↦
      assign_to id a (target_handler (or_else handler_id a.handler_id) db) handler_id actor now db
]
