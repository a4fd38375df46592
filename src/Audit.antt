-- ===== src/Audit.antt =====
-- The audit service, `app/services/fnol/audit.py` over `app/repositories/audit.py`: a row is added to
-- the caller's transaction.
use claims_workbench_be.Common.{List, [], ◌∷◌, String}
use claims_workbench_be.Enums.Claims.{ActorType, AuditEventType}
use claims_workbench_be.Model.Case.{FnolCase}
use claims_workbench_be.Model.Claims.{Claim}
use claims_workbench_be.Model.Rows.{AuditValue, AuditEvent}
use claims_workbench_be.Model.Db.{Db}

abbrev pub Snapshot : Type 0
Snapshot = List (String × AuditValue)

unfoldable pub record_event : AuditEvent → Db → Db
record_event event db = record db { audit = event ∷ db.audit }

unfoldable pub audit_claim :
    Claim → AuditEventType → String → ActorType → Snapshot → Snapshot → Db → Db
unfolding record_event
audit_claim claim event_type actor actor_type after context = record_event (record {
  entity_type = "claim";
  entity_id = claim.id;
  entity_reference = claim.reference;
  event_type = event_type;
  actor = actor;
  actor_type = actor_type;
  before = [];
  after = after;
  context = context;
})

unfoldable pub audit_fnol :
    FnolCase → AuditEventType → String → ActorType → Snapshot → Snapshot → Snapshot → Db → Db
unfolding record_event
audit_fnol c event_type actor actor_type before after context = record_event (record {
  entity_type = "fnol";
  entity_id = c.id;
  entity_reference = c.reference;
  event_type = event_type;
  actor = actor;
  actor_type = actor_type;
  before = before;
  after = after;
  context = context;
})
