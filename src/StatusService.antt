-- ===== src/StatusService.antt =====
-- The moves of a case's status by `FNOLService` of `app/services/fnol/service.py`: `refresh_status`
-- and `transition`.
pub mod Refreshed
use claims_workbench_be.Common.{
  ℕ, Bool, true, false, Option, none, some, List, [], ◌∷◌, map, String, ◌==◌, if◌then◌else◌,
}
use claims_workbench_be.Enums.Intake.{FnolStatus, fnol_status_eq, ExceptionCode}
use claims_workbench_be.Enums.Claims.{ActorType, AuditEventType}
use claims_workbench_be.Lifecycle.{can_transition, derive_status}
use claims_workbench_be.Model.Case.{FnolCase, holds_text}
use claims_workbench_be.Model.Rows.{FnolException, fnol_status, optional_words}
use claims_workbench_be.Model.Db.{Db}
use claims_workbench_be.Repository.Cases.{update_case}
use claims_workbench_be.Repository.Exceptions.{list_exceptions}
use claims_workbench_be.Audit.{Snapshot, record_event}

abbrev pub with_status : FnolStatus → FnolCase → FnolCase
with_status status c = record c { status = status }

unfoldable pub open_codes : FnolCase → Db → List ExceptionCode
open_codes c db = map (λ (e : FnolException). e.code) (list_exceptions c.id true db)

-- `case.status = …` and the event that tells of it.
abbrev pub set_status :
    FnolCase → FnolStatus → String → ActorType → Snapshot → Snapshot → Snapshot → Db → Db
set_status c status actor actor_type before after context db =
    record_event
      (record {
        entity_type = "fnol";
        entity_id = c.id;
        entity_reference = c.reference;
        event_type = AuditEventType.fnol_status_changed;
        actor = actor;
        actor_type = actor_type;
        before = before;
        after = after;
        context = context;
      })
      (update_case c.id (with_status status) db)

-- The write of `refresh_status`, which is left out when the status stays.
abbrev pub moved_to : FnolCase → FnolStatus → Bool → Db → Db
moved_to c current true db = db
moved_to c current false db =
    set_status c current "FNOL pipeline" ActorType.ai [] []
      (("from", fnol_status c.status) ∷ ("to", fnol_status current) ∷ []) db

unfoldable pub refresh_status : FnolCase → Db → FnolStatus × Db
unfolding open_codes
refresh_status c db =
    let current = derive_status c.status (open_codes c db) false in
    (current, moved_to c current (current == c.status) db)

-- `transition`; a move that the table does not list is a conflict.
unfoldable pub transition : FnolCase → FnolStatus → String → Option String → Db → Option Db
transition c target actor reason db =
    if can_transition c.status target
    then some (
        set_status c target actor ActorType.human (("status", fnol_status c.status) ∷ [])
          (("status", fnol_status target) ∷ [])
          (if holds_text reason then ("reason", optional_words reason) ∷ [] else []) db)
    else none
