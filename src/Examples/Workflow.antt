-- ===== src/Examples/Workflow.antt =====
-- The theorems on provenance rows and on status moves, applied.
use claims_workbench_be.Common.{
  ℕ, true, false, Option, none, some, List, [], ◌∷◌, String, ◌≡◌, refl, nat_eq, string_eq,
}
use claims_workbench_be.Common.Table.{find, pair_eq}
use claims_workbench_be.Enums.Intake.{FnolStatus, FieldSource}
use claims_workbench_be.Lifecycle.{is_terminal, can_transition, derive_status}
use claims_workbench_be.Model.Case.{FnolCase}
use claims_workbench_be.Model.Rows.{FnolExtractedField}
use claims_workbench_be.Model.Db.{Db}
use claims_workbench_be.Repository.Cases.{get_case}
use claims_workbench_be.Repository.Fields.{
  get_field, Reading, new_field, upsert_fields, SameDecision, upsert_fields-human,
}
use claims_workbench_be.StatusService.{
  with_status, open_codes, set_status, refresh_status, transition,
}
use claims_workbench_be.StatusService.Refreshed.{refresh_status_lem, transition-terminal}
use claims_workbench_be.Enums.Claims.{ActorType}
use claims_workbench_be.Model.Rows.{fnol_status}
use claims_workbench_be.Examples.Fixtures.{notice, desk}

abbrev reading : String → Option String → Reading
reading path value = record {
  field_path = path;
  section = "loss";
  label = "Location";
  value_text = value;
  confidence = some 70;
  source = FieldSource.ai;
  source_document_id = none;
  evidence_snippet = none;
}

-- An officer has corrected the place of the loss.
abbrev corrected : FnolExtractedField
corrected = record (new_field 1 (reading "loss.location" (some "Leeds"))) {
  human_modified = true;
  source = FieldSource.human;
  original_value = some "London";
  modified_by = some "a.officer";
}

abbrev corrected_desk : Db
corrected_desk = record desk { fields = corrected ∷ [] }

corrected_field : get_field 1 "loss.location" corrected_desk ≡ some corrected
unfolding get_field find
corrected_field = refl

abbrev later : List (ℕ × Reading)
later =
    (1, reading "loss.location" (some "London"))
    ∷ (1, reading "loss.cause" none)
    ∷ (2, reading "loss.location" (some "Hull"))
    ∷ []

upsert_fields-human_example :
    (g : FnolExtractedField) × (get_field 1 "loss.location" (upsert_fields later corrected_desk)
      ≡ some g)
    × SameDecision corrected g
upsert_fields-human_example =
    upsert_fields-human 1 "loss.location" corrected later corrected_desk corrected_field refl

notice_stored : get_case 1 desk ≡ some notice
unfolding get_case find
notice_stored = refl

refresh_status_lem_example :
    let (s, db') = refresh_status notice desk in
    (s ≡ derive_status FnolStatus.needs_review (open_codes notice desk) false)
    × (get_case 1 db' ≡ some (with_status s notice))
    × (refresh_status (with_status s notice) db' ≡ (s, db'))
refresh_status_lem_example = refresh_status_lem notice desk notice_stored

abbrev rejected : FnolCase
rejected = with_status FnolStatus.rejected notice

abbrev rejected_desk : Db
rejected_desk = record desk { cases = rejected ∷ [] }

rejected_stored : get_case 1 rejected_desk ≡ some rejected
unfolding get_case find
rejected_stored = refl

rejected_terminal : is_terminal FnolStatus.rejected ≡ true
unfolding is_terminal
rejected_terminal = refl

-- The same status again, which the table allows.
abbrev rejected_again : Db
rejected_again =
    set_status rejected FnolStatus.rejected "a.officer" ActorType.human
      (("status", fnol_status FnolStatus.rejected) ∷ [])
      (("status", fnol_status FnolStatus.rejected) ∷ []) [] rejected_desk

moved_again :
    transition rejected FnolStatus.rejected "a.officer" none rejected_desk ≡ some rejected_again
unfolding transition can_transition
moved_again = refl

transition-terminal_example : get_case 1 rejected_again ≡ some rejected
transition-terminal_example =
    transition-terminal rejected FnolStatus.rejected "a.officer" none rejected_desk rejected_again
      rejected_terminal rejected_stored moved_again
