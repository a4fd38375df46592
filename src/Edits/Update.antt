-- ===== src/Edits/Update.antt =====
-- `update_fields` and `_set_flag` of `app/services/fnol/service.py`, change by change.
use claims_workbench_be.Common.{
  ℕ, Bool, true, false, not, Option, none, some, List, [], ◌∷◌, ◌++◌, String, nat_eq, string_eq,
  ◌==◌, if◌then◌else◌,
}
use claims_workbench_be.Common.Table.{upsert, pair_eq}
use claims_workbench_be.Enums.Intake.{FieldSource}
use claims_workbench_be.Enums.Claims.{ActorType, AuditEventType}
use claims_workbench_be.Model.Case.{Attribute, Value, text, number, stamp, Flag, holds_text}
use claims_workbench_be.Model.Rows.{FnolExtractedField, truth, optional_words}
use claims_workbench_be.Model.Db.{Db}
use claims_workbench_be.Audit.{Snapshot, audit_fnol}
use claims_workbench_be.Rules.FieldMeta.{label_of, section_of}
use claims_workbench_be.Repository.Fields.{field_key, Reading, new_field}
use claims_workbench_be.Completeness.{get_path}
use claims_workbench_be.Normalisation.{Python}
use claims_workbench_be.Session.{Session, with_column, with_flag, shown}
use claims_workbench_be.Edits.{Kind, editable, editable_flags, Raw, Coerced, coerce, flag_value}

-- Who changes a field, why and when.
pub record Officer : Type 0 where
  pub actor : String
  pub reason : Option String
  pub now : ℕ

-- `parsed == previous`
abbrev pub same_value : Option Value → Option Value → Bool
same_value none none = true
same_value (some (text a)) (some (text b)) = a == b
same_value (some (number a)) (some (number b)) = a == b
same_value (some (stamp a)) (some (stamp b)) = a == b
same_value _ _ = false

-- The row of a field that had none, as `upsert_field` makes it.
abbrev pub human_reading : String → Option String → Reading
human_reading path display = record {
  field_path = path;
  section = section_of path;
  label = label_of path;
  value_text = display;
  confidence = some 100;
  source = FieldSource.human;
  source_document_id = none;
  evidence_snippet = none;
}

-- What the change writes on the row. The value that the machine read is kept once.
abbrev pub corrected : Officer → Option String → FnolExtractedField → FnolExtractedField
corrected o display f = record f {
  original_value = if f.human_modified then f.original_value else f.value_text;
  value_text = display;
  confidence = some 100;
  source = FieldSource.human;
  human_modified = true;
  modified_by = some o.actor;
  modified_at = some o.now;
  override_reason = o.reason;
}

abbrev pub reason_context : Option String → Snapshot
reason_context reason = if holds_text reason then ("reason", optional_words reason) ∷ [] else []

-- The row is made if there is none, and then changed.
abbrev pub correct_row : Officer → ℕ → String → Option String → Db → Db
correct_row o case_id path display db =
    let fresh = new_field case_id (human_reading path display) in
    record db {
      fields =
          upsert field_key (case_id, path) (corrected o display fresh) (corrected o display)
            db.fields;
    }

abbrev pub change_column :
    Officer → String → Attribute → Option Value → Option String → Session → Session
change_column o path a parsed display s =
    let previous = s.case.column a in
    let moved = with_column a parsed s in
    record moved {
      db =
          audit_fnol s.case AuditEventType.field_changed o.actor ActorType.human
            ((path, shown previous) ∷ []) ((path, optional_words display) ∷ [])
            (reason_context o.reason) (correct_row o s.case.id path display s.db);
    }

abbrev pub change_flag : Officer → String → Flag → Bool → Session → Session
change_flag o path a value s =
    let previous = s.case.flag a in
    let moved = with_flag a value s in
    record moved {
      db =
          audit_fnol s.case AuditEventType.field_changed o.actor ActorType.human
            ((path, truth previous) ∷ []) ((path, truth value) ∷ []) (reason_context o.reason) s.db;
    }

-- The paths that changed and what is left, or the path that was refused.
pub data Edited : Type 0 where
  refused : String → Edited
  edited : List String → Session → Edited

abbrev pub same_flag : Bool → Bool → Bool
same_flag a b = if a then b else not b

module _ (py : Python) (o : Officer) where
  abbrev pub edit_column : String → Attribute → Coerced → Session → Edited
  edit_column path a none s = refused path
  edit_column path a (some (parsed, display)) s =
      if same_value parsed (s.case.column a)
      then edited [] s
      else edited (path ∷ []) (change_column o path a parsed display s)

  abbrev pub edit_flag : String → Flag → Option Bool → Session → Edited
  edit_flag path a none s = refused path
  edit_flag path a (some value) s =
      if same_flag (s.case.flag a) value
      then edited [] s
      else edited (path ∷ []) (change_flag o path a value s)

  abbrev pub edit_known : String → Option (Attribute × Kind) → Raw → Session → Edited
  edit_known path none raw s = refused path
  edit_known path (some (a, kind)) raw s = edit_column path a (coerce py o.now kind raw a) s

  -- One round of the loop of `update_fields`.
  unfoldable pub edit : String → Raw → Session → Edited
  edit path raw s = elim (get_path path editable_flags) [
    | some a ↦ edit_flag path a (flag_value py o.now raw) s
    | none ↦ edit_known path (get_path path editable) raw s
  ]

  abbrev pub and_then : List String → Edited → Edited
  and_then changed (refused path) = refused path
  and_then changed (edited more s) = edited (changed ++ more) s

  unfoldable pub update_fields : List (String × Raw) → Session → Edited
  update_fields [] s = edited [] s
  update_fields ((path, raw) ∷ rest) s = elim (edit path raw s) [
    | refused p ↦ refused p
    | edited changed s' ↦ and_then changed (update_fields rest s')
  ]
