-- ===== src/ClaimCreation/Create.antt =====
-- `create` of `app/services/fnol/claims.py`.
use claims_workbench_be.Common.{
  ℕ, ◌+◌, false, Option, none, some, some_or, List, [], ◌∷◌, String, nat_eq, string_eq, ◌==◌,
  if◌then◌else◌,
}
use claims_workbench_be.Enums.Intake.{FnolStatus, fnol_status_eq}
use claims_workbench_be.Enums.Claims.{ClaimStatus, Priority, ActorType, AuditEventType}
use claims_workbench_be.References.{Text, claim_prefix}
use claims_workbench_be.Lifecycle.{can_transition}
use claims_workbench_be.Model.Case.{
  FnolCase, as_text, as_number, as_stamp, holds_text, policy_number, insured_name, date_of_loss,
  loss_description, loss_location, loss_country, estimated_loss_minor,
}
use claims_workbench_be.Model.Claims.{Claim, ClaimTriage, ClaimAssignment}
use claims_workbench_be.Model.Rows.{
  words, reference_text, amount, fnol_status, priority, categories, assignment, optional_words,
}
use claims_workbench_be.Model.Db.{Db}
use claims_workbench_be.Repository.Cases.{get_case, update_case}
use claims_workbench_be.Repository.Claims.{get_claim, get_by_fnol}
use claims_workbench_be.Repository.Sequences.{next_reference}
use claims_workbench_be.Audit.{audit_claim, audit_fnol}
use claims_workbench_be.Signals.{PythonStrings}
use claims_workbench_be.TriageService.{run}
use claims_workbench_be.TriageService.Assignment.{recommend}
use claims_workbench_be.ClaimCreation.{Blocker, blockers, claimant_name}

-- The result, or the error.
pub data Creation : Type 0 where
  no_notification : Creation
  converted_without_claim : Creation
  creation_blocked : List Blocker → Creation
  existing_claim : Claim → Creation
  created_claim : Claim → Creation

-- What a request brings: who asks and with which key, and what the clock says.
pub record Request : Type 0 where
  pub actor : String
  pub idempotency_key : Option String
  pub year : ℕ

abbrev pub text_or : Option String → Option String → Option String
text_or a b = if holds_text a then a else b

-- The claim, as it is added.
abbrev pub new_claim : ℕ → Text → Option String → String → FnolCase → Claim
new_claim id reference claimant actor c = record {
  id = id;
  reference = reference;
  fnol_case_id = c.id;
  status = ClaimStatus.fnol;
  priority = Priority.standard;
  policy_id = c.policy_id;
  policy_number = as_text (c.column policy_number);
  insured_name = as_text (c.column insured_name);
  claimant_name = text_or claimant (as_text (c.column insured_name));
  line_of_business = c.line_of_business;
  claim_type = c.claim_type;
  loss_type = c.loss_type;
  loss_description = as_text (c.column loss_description);
  loss_location = as_text (c.column loss_location);
  loss_country = as_text (c.column loss_country);
  date_of_loss = as_stamp (c.column date_of_loss);
  reported_at = c.received_at;
  severity = c.severity;
  reserve_minor = some_or (as_number (c.column estimated_loss_minor)) 0;
  currency = if c.currency == "" then "GBP" else c.currency;
  cat_event_id = if c.cat_confirmed then c.cat_event_id else none;
  fraud_flag = false;
  over_authority = false;
  created_by = actor;
  handler_name = none;
}

abbrev pub add_claim : Claim → Db → Db
add_claim claim db = record db { claims = claim ∷ db.claims; next_id = db.next_id + 1 }

-- The first write: a case that may not move to `claim_created` is set to `ready_for_claim`.
abbrev pub readied : FnolCase → FnolCase
readied c =
    if can_transition c.status FnolStatus.claim_created
    then c
    else record c { status = FnolStatus.ready_for_claim }

abbrev pub converted : ℕ → FnolCase → FnolCase
converted claim_id c = record c { claim_id = some claim_id; status = FnolStatus.claim_created }

abbrev pub audit_created : Claim → FnolCase → Request → Db → Db
audit_created claim c request db =
    audit_fnol c AuditEventType.fnol_status_changed request.actor ActorType.human
      (("status", fnol_status FnolStatus.ready_for_claim) ∷ [])
      (("status", fnol_status FnolStatus.claim_created)
        ∷ ("claim", reference_text claim.reference)
        ∷ [])
      []
      (audit_claim claim AuditEventType.claim_created request.actor ActorType.human
        (("reference", reference_text claim.reference)
          ∷ ("policy_number", optional_words claim.policy_number)
          ∷ ("reserve_minor", amount claim.reserve_minor)
          ∷ ("severity", optional_words claim.severity)
          ∷ [])
        (("fnol_reference", reference_text c.reference)
          ∷ ("idempotency_key", optional_words request.idempotency_key)
          ∷ [])
        db)

abbrev pub audit_triaged : Claim → ClaimTriage → Db → Db
audit_triaged claim t =
    audit_claim claim AuditEventType.triage_completed "Triage engine" ActorType.ai
      (("route", words t.recommended_route)
        ∷ ("priority", priority t.recommended_priority)
        ∷ ("categories", categories t.categories)
        ∷ [])
      []

abbrev pub audit_recommended : Claim → ClaimAssignment → Db → Db
audit_recommended claim a =
    audit_claim claim AuditEventType.handler_assigned "Assignment engine" ActorType.ai
      (("handler", optional_words a.handler_name)
        ∷ ("queue", optional_words a.queue)
        ∷ ("status", assignment a.status)
        ∷ [])
      []

module _ (py : PythonStrings) (major_loss_threshold_minor : ℕ) where
  -- Triage and the assignment, with their events.
  unfoldable pub route_claim : Claim → FnolCase → Db → Db
  route_claim claim c db =
      let (t, db1) = run py major_loss_threshold_minor claim c db in
      let (a, db2) = recommend py.lower claim t (audit_triaged claim t db1) in
      audit_recommended claim a db2

  -- The claim and the link back to it.
  unfoldable pub convert : FnolCase → Request → Db → Claim × Db
  convert c request db =
      let db1 = update_case c.id readied db in
      let (reference, db2) = next_reference claim_prefix request.year db1 in
      let claim = new_claim db2.next_id reference (claimant_name c db2) request.actor c in
      let db3 = update_case c.id (converted claim.id) (add_claim claim db2) in
      (claim, audit_created claim c request db3)

  abbrev pub create_unblocked : FnolCase → Request → List Blocker → Db → Creation × Db
  create_unblocked c request (b ∷ bs) db = (creation_blocked (b ∷ bs), db)
  create_unblocked c request [] db =
      let (claim, db1) = convert c request db in
      let db2 = route_claim claim c db1 in
      (created_claim (some_or (get_claim claim.id db2) claim), db2)

  abbrev pub create_new : FnolCase → Request → Db → Creation × Db
  create_new c request db =
      if c.status == FnolStatus.claim_created
      then (converted_without_claim, db)
      else create_unblocked c request (blockers c db) db

  abbrev pub create_once : FnolCase → Request → Option Claim → Db → Creation × Db
  create_once c request (some claim) db = (existing_claim claim, db)
  create_once c request none db = create_new c request db

  abbrev pub create_for : Option FnolCase → Request → Db → Creation × Db
  create_for none request db = (no_notification, db)
  create_for (some c) request db = create_once c request (get_by_fnol c.id db) db

  unfoldable pub create : ℕ → Request → Db → Creation × Db
  create case_id request db = create_for (get_case case_id db) request db
