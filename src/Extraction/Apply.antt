-- ===== src/Extraction/Apply.antt =====
-- `apply` of `app/services/fnol/extraction.py`, write by write.
use claims_workbench_be.Common.{
  ℕ, Bool, true, false, Option, none, some, some_or, is_some, List, [], ◌∷◌, ◌++◌, String, nat_eq,
  string_eq, ◌==◌, if◌then◌else◌,
}
use claims_workbench_be.Common.Table.{upserted, pair_eq}
use claims_workbench_be.Enums.Intake.{FieldSource}
use claims_workbench_be.Model.Case.{Attribute, Value, Flag, holds_text}
use claims_workbench_be.Model.Rows.{FnolExtractedField, FnolParty}
use claims_workbench_be.Model.Db.{Db}
use claims_workbench_be.Rules.FieldMeta.{label_of, section_of}
use claims_workbench_be.Repository.Fields.{
  field_key, get_field, Reading, new_field, reread, upsert_field,
}
use claims_workbench_be.Repository.Parties.{upsert_party}
use claims_workbench_be.Normalisation.{
  Python, parse_currency, parse_bool, parse_email, parse_phone, parse_party_role, clip,
}
use claims_workbench_be.Session.{Session, with_column, with_flag, is_human, path_of}
use claims_workbench_be.Extraction.{ExtractedField, PartyExtraction, FnolExtraction, parsed}

-- The confidence of each field path, in the order of the writes.
abbrev pub Confidences : Type 0
Confidences = List (String × Option ℕ)

abbrev pub ai_reading : String → ExtractedField → Reading
ai_reading path f = record {
  field_path = path;
  section = section_of path;
  label = label_of path;
  value_text = f.value;
  confidence = if is_some f.value then some f.confidence else none;
  source = FieldSource.ai;
  source_document_id = none;
  evidence_snippet = f.evidence;
}

-- The row that `upsert_field` returns.
abbrev pub row_after : ℕ → Reading → Db → FnolExtractedField
row_after case_id r db =
    upserted field_key (new_field case_id r) (reread r) (get_field case_id r.field_path db)

-- `setattr`, unless the value did not parse or a human has set the field.
abbrev pub take_value : Attribute → Option Value → Bool → Session → Session
take_value a none human s = s
take_value a (some v) true s = s
take_value a (some v) false s = with_column a (some v) s

-- `record`
unfoldable pub record_field :
    Attribute → ExtractedField → Option Value → Session → Confidences × Session
record_field a f value s =
    let r = ai_reading (path_of a) f in
    let row = row_after s.case.id r s.db in
    let stored : Session = record s { db = upsert_field s.case.id r s.db } in
    ((path_of a, row.confidence) ∷ [], take_value a value row.human_modified stored)

abbrev pub first_columns : List Attribute
first_columns =
    Attribute.reporter_name ∷ Attribute.reporter_organisation ∷ Attribute.reporter_role
    ∷ Attribute.reporter_email ∷ Attribute.reporter_phone ∷ Attribute.policy_number
    ∷ Attribute.insured_name ∷ Attribute.insured_organisation ∷ Attribute.policy_type
    ∷ Attribute.date_of_loss ∷ Attribute.loss_location ∷ Attribute.loss_country
    ∷ Attribute.loss_description ∷ Attribute.cause_of_loss ∷ Attribute.affected_assets
    ∷ Attribute.injuries ∷ Attribute.fatalities ∷ []

abbrev pub last_columns : List Attribute
last_columns =
    Attribute.estimated_loss_minor ∷ Attribute.repair_estimate_minor ∷ Attribute.police_reference
    ∷ Attribute.incident_reference ∷ Attribute.authorities_involved ∷ []

abbrev pub extracted_flags : List Flag
extracted_flags =
    Flag.business_interruption ∷ Flag.structural_damage ∷ Flag.environmental_exposure
    ∷ Flag.potential_litigation ∷ []

abbrev pub text_or_none : Option String → Option String → Option String
text_or_none a b = if holds_text a then a else b

abbrev pub take_flag : Flag → Option Bool → Session → Session
take_flag a none s = s
take_flag a (some value) s = with_flag a value s

module _ (py : Python) (base_currency : String) (now : ℕ) (e : FnolExtraction) where
  unfoldable pub record_fields : List Attribute → Session → Confidences × Session
  record_fields [] s = ([], s)
  record_fields (a ∷ rest) s =
      let (first, s1) = record_field a (e.field a) (parsed py now e a) s in
      let (later, s2) = record_fields rest s1 in (first ++ later, s2)

  -- The currency goes with the estimate, and stays when a human has set that.
  abbrev pub set_currency : Session → Session
  set_currency s =
      let fallback = if s.case.currency == "" then base_currency else s.case.currency in
      let estimate = (e.field Attribute.estimated_loss_minor).value in
      let currency = parse_currency py (text_or_none e.currency estimate) fallback in
      if is_human (get_field s.case.id "financial.estimated_loss" s.db)
      then s
      else record s { case = record s.case { currency = currency } }

  unfoldable pub take_flags : List Flag → Session → Session
  take_flags [] s = s
  take_flags (a ∷ rest) s = take_flags rest (take_flag a (parse_bool py (e.flag a)) s)

  abbrev pub party_row : ℕ → PartyExtraction → FnolParty
  party_row case_id p = record {
    fnol_case_id = case_id;
    role = parse_party_role py (some p.role);
    name = some_or (clip py 255 (some p.name)) p.name;
    organisation = clip py 255 p.organisation;
    email = parse_email py p.email;
    phone = parse_phone py p.phone;
    source = FieldSource.ai;
    confidence = some p.confidence;
  }

  -- A party whose name is blank is passed over.
  unfoldable pub take_parties : ℕ → List FnolParty → List PartyExtraction → Db → Db
  take_parties case_id stored [] db = db
  take_parties case_id stored (p ∷ rest) db = take_parties case_id stored rest (
      if py.strip p.name == ""
      then db
      else upsert_party py.lower py.strip stored (party_row case_id p) db)

  abbrev pub finish : Session → Session
  finish s = record s {
    case = record s.case { extraction_confidence = some e.overall_confidence };
    db = take_parties s.case.id s.db.parties e.parties s.db;
  }

  unfoldable pub apply : Session → Confidences × Session
  unfolding record_fields take_flags take_parties
  apply s =
      let (first, s1) = record_fields first_columns s in
      let (later, s2) = record_fields last_columns (set_currency s1) in
      (first ++ later, finish (take_flags extracted_flags s2))
