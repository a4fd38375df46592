-- ===== src/Extraction.antt =====
-- `apply` of `app/services/fnol/extraction.py`: what a reading of a notification, by a model or by the
-- deterministic reader, writes on the case.
pub mod Apply
pub mod Human
pub mod Corrected
pub mod Typed
use claims_workbench_be.Common.{ℕ, Bool, Option, none, some, List, String}
use claims_workbench_be.Model.Case.{Attribute, Value, text, number, stamp, Flag}
use claims_workbench_be.Normalisation.{
  Python, parse_datetime, parse_money_minor, parse_count, parse_email, parse_phone, clip,
}

-- `ExtractedField` of `app/domain/extraction.py`, as its validators leave it.
pub record ExtractedField : Type 0 where
  pub value : Option String
  pub confidence : ℕ
  pub evidence : Option String

pub record PartyExtraction : Type 0 where
  pub role : String
  pub name : String
  pub organisation : Option String
  pub email : Option String
  pub phone : Option String
  pub confidence : ℕ

-- `FNOLExtraction`, as far as `apply` reads it: the fields that go to columns, by column.
pub record FnolExtraction : Type 0 where
  pub field : Attribute → ExtractedField
  pub time_of_loss : Option String
  pub currency : Option String
  pub flag : Flag → Option String
  pub parties : List PartyExtraction
  pub overall_confidence : ℕ

abbrev pub text_value : Option String → Option Value
text_value none = none
text_value (some s) = some (text s)

abbrev pub number_value : Option ℕ → Option Value
number_value none = none
number_value (some n) = some (number n)

abbrev pub stamp_value : Option ℕ → Option Value
stamp_value none = none
stamp_value (some t) = some (stamp t)

-- What `parsed=` is for each column.
abbrev pub parsed : Python → ℕ → FnolExtraction → Attribute → Option Value
parsed py now e Attribute.reporter_name =
    text_value (clip py 255 (e.field Attribute.reporter_name).value)
parsed py now e Attribute.reporter_organisation =
    text_value (clip py 255 (e.field Attribute.reporter_organisation).value)
parsed py now e Attribute.reporter_role =
    text_value (clip py 96 (e.field Attribute.reporter_role).value)
parsed py now e Attribute.reporter_email =
    text_value (parse_email py (e.field Attribute.reporter_email).value)
parsed py now e Attribute.reporter_phone =
    text_value (parse_phone py (e.field Attribute.reporter_phone).value)
parsed py now e Attribute.policy_number =
    text_value (clip py 64 (e.field Attribute.policy_number).value)
parsed py now e Attribute.insured_name =
    text_value (clip py 255 (e.field Attribute.insured_name).value)
parsed py now e Attribute.insured_organisation =
    text_value (clip py 255 (e.field Attribute.insured_organisation).value)
parsed py now e Attribute.policy_type =
    text_value (clip py 64 (e.field Attribute.policy_type).value)
parsed py now e Attribute.date_of_loss =
    stamp_value (parse_datetime py now (e.field Attribute.date_of_loss).value e.time_of_loss)
parsed py now e Attribute.loss_location =
    text_value (clip py 2000 (e.field Attribute.loss_location).value)
parsed py now e Attribute.loss_country =
    text_value (clip py 64 (e.field Attribute.loss_country).value)
parsed py now e Attribute.loss_description =
    text_value (clip py 4000 (e.field Attribute.loss_description).value)
parsed py now e Attribute.cause_of_loss =
    text_value (clip py 255 (e.field Attribute.cause_of_loss).value)
parsed py now e Attribute.affected_assets =
    text_value (clip py 2000 (e.field Attribute.affected_assets).value)
parsed py now e Attribute.injuries =
    number_value (parse_count py 100000 (e.field Attribute.injuries).value)
parsed py now e Attribute.fatalities =
    number_value (parse_count py 100000 (e.field Attribute.fatalities).value)
parsed py now e Attribute.estimated_loss_minor =
    number_value (parse_money_minor py (e.field Attribute.estimated_loss_minor).value)
parsed py now e Attribute.repair_estimate_minor =
    number_value (parse_money_minor py (e.field Attribute.repair_estimate_minor).value)
parsed py now e Attribute.police_reference =
    text_value (clip py 128 (e.field Attribute.police_reference).value)
parsed py now e Attribute.incident_reference =
    text_value (clip py 128 (e.field Attribute.incident_reference).value)
parsed py now e Attribute.authorities_involved =
    text_value (clip py 2000 (e.field Attribute.authorities_involved).value)
