-- ===== src/Repository/Fields.antt =====
-- The provenance rows of `app/repositories/fnol.py`: `get_field` and `upsert_field`, and what a later
-- extraction keeps of a human's correction.
use claims_workbench_be.Common.{
  ℕ, true, false, Option, none, some, or_else, List, [], ◌∷◌, String, nat_eq, string_eq, ◌≡◌, refl,
  sym, ◌∙◌, if◌then◌else◌, Bool-cases, inl, inr, eq_cases, ap,
}
use claims_workbench_be.Common.Table.{find, upsert, upserted, find-upsert, pair_eq}
use claims_workbench_be.Enums.Intake.{FieldSource}
use claims_workbench_be.Model.Case.{holds_text}
use claims_workbench_be.Model.Rows.{FnolExtractedField}
use claims_workbench_be.Model.Db.{Db}

-- `uq_fnol_field_path`
abbrev pub field_key : FnolExtractedField → ℕ × String
field_key f = (f.fnol_case_id, f.field_path)

unfoldable pub get_field : ℕ → String → Db → Option FnolExtractedField
get_field case_id path db = find field_key (case_id, path) db.fields

-- The keyword arguments of `upsert_field`.
pub record Reading : Type 0 where
  pub field_path : String
  pub section : String
  pub label : String
  pub value_text : Option String
  pub confidence : Option ℕ
  pub source : FieldSource
  pub source_document_id : Option ℕ
  pub evidence_snippet : Option String

abbrev pub new_field : ℕ → Reading → FnolExtractedField
new_field case_id r = record {
  fnol_case_id = case_id;
  field_path = r.field_path;
  section = r.section;
  label = r.label;
  value_text = r.value_text;
  confidence = r.confidence;
  source = r.source;
  source_document_id = r.source_document_id;
  evidence_snippet = r.evidence_snippet;
  human_modified = false;
  original_value = none;
  modified_by = none;
  modified_at = none;
  override_reason = none;
}

abbrev pub reread : Reading → FnolExtractedField → FnolExtractedField
reread r f =
    if f.human_modified
    then record f {
      label = r.label;
      section = r.section;
      evidence_snippet =
          if holds_text r.evidence_snippet then r.evidence_snippet else f.evidence_snippet;
      source_document_id = or_else r.source_document_id f.source_document_id;
    }
    else record f {
      label = r.label;
      section = r.section;
      value_text = r.value_text;
      confidence = r.confidence;
      source = r.source;
      source_document_id = r.source_document_id;
      evidence_snippet = r.evidence_snippet;
    }

unfoldable pub upsert_field : ℕ → Reading → Db → Db
upsert_field case_id r db = record db {
  fields = upsert field_key (case_id, r.field_path) (new_field case_id r) (reread r) db.fields;
}

-- The readings of any number of extractions, each with its case, one after the other.
pub upsert_fields : List (ℕ × Reading) → Db → Db
upsert_fields [] db = db
upsert_fields ((case_id, r) ∷ rest) db = upsert_fields rest (upsert_field case_id r db)

field_key-reread : (r : Reading) (f : FnolExtractedField) → field_key (reread r f) ≡ field_key f
field_key-reread r f = elim (Bool-cases f.human_modified) [ inl t ↦ rw t | inr n ↦ rw n ]

-- Two rows that agree on what a human decides: the value with its confidence and source, and who
-- changed it, when, from what and why.
abbrev pub SameDecision : FnolExtractedField → FnolExtractedField → Type 0
SameDecision f g =
    (g.value_text ≡ f.value_text)
    × (g.confidence ≡ f.confidence)
    × (g.source ≡ f.source)
    × (g.human_modified ≡ f.human_modified)
    × (g.original_value ≡ f.original_value)
    × (g.modified_by ≡ f.modified_by)
    × (g.modified_at ≡ f.modified_at)
    × (g.override_reason ≡ f.override_reason)

abbrev pub Kept : ℕ → String → FnolExtractedField → Db → Type 0
Kept i path f db = (g : FnolExtractedField) × (get_field i path db ≡ some g) × SameDecision f g

SameDecision-reread :
    (r : Reading) (f g : FnolExtractedField)
    → f.human_modified ≡ true
    → SameDecision f g
    → SameDecision f (reread r g)
SameDecision-reread r f g h (a, b, c, d, e, k, l, m) =
    let t : g.human_modified ≡ true = d ∙ h in rw t (a, b, c, sym h, e, k, l, m)

pub Kept-upsert_field :
    (i : ℕ) (path : String) (f : FnolExtractedField) (j : ℕ) (r : Reading) (db : Db)
    → f.human_modified ≡ true
    → Kept i path f db
    → Kept i path f (upsert_field j r db)
unfolding get_field upsert_field
Kept-upsert_field i path f j r db h (g, e, same) =
    let law =
      find-upsert field_key (i, path) (j, r.field_path) (new_field j r) (reread r) db.fields refl
        (field_key-reread r) in
    elim (eq_cases {A = ℕ × String} (j, r.field_path) (i, path)) [
      | inl (t, at) ↦ (
        reread r g,
        law
            ∙ rw t (
                ap (λ row. some (upserted field_key (new_field j r) (reread r) row))
                  (ap (λ k. find field_key k db.fields) at ∙ e)),
        SameDecision-reread r f g h same,
      )
      | inr (n, _) ↦ (g, law ∙ rw n e, same)
    ]

Kept-upsert_fields :
    (i : ℕ) (path : String) (f : FnolExtractedField)
    → f.human_modified ≡ true
    → (readings : List (ℕ × Reading)) (db : Db) → Kept i path f db
    → Kept i path f (upsert_fields readings db)
unfolding upsert_fields
Kept-upsert_fields i path f h [] db k = k
Kept-upsert_fields i path f h ((j, r) ∷ rest) db k =
    Kept-upsert_fields i path f h rest (upsert_field j r db) (Kept-upsert_field i path f j r db h k)

-- What a human decided of a field stays through any sequence of later readings, of this field and of
-- any other: its value, confidence and source, and the record of who changed it and why.
pub upsert_fields-human :
    (i : ℕ) (path : String) (f : FnolExtractedField) (readings : List (ℕ × Reading)) (db : Db)
    → get_field i path db ≡ some f
    → f.human_modified ≡ true
    → (g : FnolExtractedField) × (get_field i path (upsert_fields readings db) ≡ some g)
      × SameDecision f g
upsert_fields-human i path f readings db e h =
    Kept-upsert_fields i path f h readings db
      (f, e, (refl, refl, refl, refl, refl, refl, refl, refl))
