-- ===== src/Extraction/Corrected.antt =====
-- An officer's correction (`update_fields` of `app/services/fnol/service.py`) against the extractions
-- that come after it (`apply` of `app/services/fnol/extraction.py`).
use claims_workbench_be.Common.{
  ℕ, true, false, Option, none, some, List, [], ◌∷◌, String, nat_eq, string_eq, ◌≡◌, refl, ◌∙◌, ap,
  beq_self,
}
use claims_workbench_be.Common.Table.{upserted, find-upsert, pair_eq}
use claims_workbench_be.Enums.Intake.{FieldSource}
use claims_workbench_be.Model.Case.{Attribute, attribute_eq, Value, Flag}
use claims_workbench_be.Model.Rows.{FnolExtractedField}
use claims_workbench_be.Audit.{audit_fnol, record_event}
use claims_workbench_be.Completeness.{get_path}
use claims_workbench_be.Repository.Fields.{field_key, get_field, new_field}
use claims_workbench_be.Normalisation.{Python}
use claims_workbench_be.Session.{Session, path_of}
use claims_workbench_be.Edits.{kind_of, editable, editable_flags, Raw, coerce, flag_value}
use claims_workbench_be.Edits.Update.{
  Officer, same_value, human_reading, corrected, change_column, edited, edit, edit_flag, edit_known,
  edit_column,
}
use claims_workbench_be.Extraction.{FnolExtraction}
use claims_workbench_be.Extraction.Apply.{apply}
use claims_workbench_be.Extraction.Human.{Held, apply-Held}

no_flag : (a : Attribute) → get_path (path_of a) editable_flags ≡ none
unfolding get_path
no_flag Attribute.reporter_name = refl
no_flag _ = refl

edits_column : (a : Attribute) → get_path (path_of a) editable ≡ some (a, kind_of a)
unfolding get_path
edits_column Attribute.reporter_name = refl
edits_column _ = refl

-- Extractions one after the other, each with its time.
pub apply_all : Python → String → List (ℕ × FnolExtraction) → Session → Session
apply_all py base_currency [] s = s
apply_all py base_currency ((now, e) ∷ rest) s =
    apply_all py base_currency rest (apply py base_currency now e s).1

module _ (py : Python) (o : Officer) (a : Attribute) where
  edit_changed :
      (raw : Raw) (parsed : Option Value) (display : Option String) (s : Session)
      → coerce py o.now (kind_of a) raw a ≡ some (parsed, display)
      → same_value parsed (s.case.column a) ≡ false
      → edit py o (path_of a) raw s
        ≡ edited (path_of a ∷ []) (change_column o (path_of a) a parsed display s)
  unfolding edit
  edit_changed raw parsed display s c n =
      ap
        (λ (known : Option Flag). elim known [
          | some b ↦ edit_flag py o (path_of a) b (flag_value py o.now raw) s
          | none ↦ edit_known py o (path_of a) (get_path (path_of a) editable) raw s
        ])
        (no_flag a)
      ∙ (ap (λ known. edit_known py o (path_of a) known raw s) (edits_column a)
          ∙ (ap (λ value. edit_column py o (path_of a) a value s) c ∙ rw n))

  -- The row that a correction leaves.
  abbrev pub corrected_row : Option String → Session → FnolExtractedField
  corrected_row display s =
      upserted field_key
        (corrected o display (new_field s.case.id (human_reading (path_of a) display)))
        (corrected o display) (get_field s.case.id (path_of a) s.db)

  change_column-Held :
      (parsed : Option Value) (display : Option String) (s : Session)
      → Held s.case.id a parsed
          (corrected_row display s)
          (change_column o (path_of a) a parsed display s)
  unfolding get_field audit_fnol record_event
  change_column-Held parsed display s = (
    refl,
    rw (beq_self a),
    (
      corrected_row display s,
      find-upsert field_key (s.case.id, path_of a) (s.case.id, path_of a) _ (corrected o display)
            s.db.fields refl (λ _. refl)
          ∙ rw (beq_self s.case.id, beq_self (path_of a)),
      (refl, refl, refl, refl, refl, refl, refl, refl),
    ),
  )

  human-corrected :
      (display : Option String) (fresh : FnolExtractedField) (row : Option FnolExtractedField)
      → let f = upserted field_key (corrected o display fresh) (corrected o display) row in
        (f.human_modified ≡ true)
        × (f.value_text ≡ display)
        × (f.source ≡ FieldSource.human)
        × (f.modified_by ≡ some o.actor)
  human-corrected display fresh none = (refl, refl, refl, refl)
  human-corrected display fresh (some f) = (refl, refl, refl, refl)

  module _ (base_currency : String) where
    apply_all-Held :
        (i : ℕ) (v : Option Value) (f : FnolExtractedField)
        → f.human_modified ≡ true
        → (readings : List (ℕ × FnolExtraction)) (s : Session) → Held i a v f s
        → Held i a v f (apply_all py base_currency readings s)
    unfolding apply_all
    apply_all-Held i v f human [] s h = h
    apply_all-Held i v f human ((now, e) ∷ rest) s h =
        apply_all-Held i v f human rest _ (apply-Held i a v f py base_currency now e s human h)

    -- When an officer's input for a column is accepted and is not the value that is there, the edit
    -- stores it; and after any number of later extractions the column still holds it, and its row still
    -- shows the officer's text as a human's, with the officer's name.
    pub apply_all-edit :
        (raw : Raw) (parsed : Option Value) (display : Option String)
        (readings : List (ℕ × FnolExtraction)) (s : Session)
        → coerce py o.now (kind_of a) raw a ≡ some (parsed, display)
        → same_value parsed (s.case.column a) ≡ false
        → (s' : Session) × (edit py o (path_of a) raw s ≡ edited (path_of a ∷ []) s')
          × (s'.case.column a ≡ parsed)
          × ((apply_all py base_currency readings s').case.column a ≡ parsed)
          × ((g : FnolExtractedField) × (get_field s.case.id
                  (path_of a)
                  (apply_all py base_currency readings s').db
                ≡ some g)
              × (g.value_text ≡ display)
              × (g.source ≡ FieldSource.human)
              × (g.modified_by ≡ some o.actor))
    apply_all-edit raw parsed display readings s c n =
        let start = change_column-Held parsed display s in
        let row = corrected_row display s in
        let (human, text, source, author) =
          human-corrected display (new_field s.case.id (human_reading (path_of a) display))
            (get_field s.case.id (path_of a) s.db) in
        let (at, column, (g, found, same)) =
          apply_all-Held s.case.id parsed row human readings _ start in
        (
          change_column o (path_of a) a parsed display s,
          edit_changed raw parsed display s c n,
          start.1,
          column,
          (g, found, same.0 ∙ text, same.2 ∙ source, same.5 ∙ author),
        )
