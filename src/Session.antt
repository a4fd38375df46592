-- ===== src/Session.antt =====
-- What a service of `app/services/fnol/` works on: the case, as the object that the session holds, and
-- the tables. The row of the case in its table is this object, so the two are one at the commit.
use claims_workbench_be.Common.{
  Bool, true, false, Option, none, some, String, nat_eq, is_some, ◌≡◌, refl,
}
use claims_workbench_be.Model.Case.{
  Attribute, Value, text, number, stamp, Flag, FnolCase, set_column, set_flag_column,
}
use claims_workbench_be.Model.Rows.{FnolExtractedField, AuditValue, missing, words, amount, moment}
use claims_workbench_be.Model.Db.{Db}
use claims_workbench_be.Repository.Cases.{update_case}
use claims_workbench_be.Rules.RequiredFields.{lob_required_fields}
use claims_workbench_be.Rules.FieldMeta.{field_meta}

pub record Session : Type 0 where
  pub case : FnolCase
  pub db : Db

-- The flush of the case to its row.
unfoldable pub saved : Session → Db
saved s = update_case s.case.id (λ _. s.case) s.db

abbrev pub with_column : Attribute → Option Value → Session → Session
with_column a v s = record s { case = set_column s.case a v }

abbrev pub with_flag : Flag → Bool → Session → Session
with_flag a v s = record s { case = set_flag_column s.case a v }

abbrev pub is_human : Option FnolExtractedField → Bool
is_human none = false
is_human (some f) = f.human_modified

-- The field path of each column, which `_EDITABLE`, `FIELD_READERS` and the extraction share.
abbrev pub path_of : Attribute → String
path_of Attribute.reporter_name = "notification.reporter_name"
path_of Attribute.reporter_organisation = "notification.reporter_organisation"
path_of Attribute.reporter_role = "notification.reporter_role"
path_of Attribute.reporter_email = "notification.reporter_email"
path_of Attribute.reporter_phone = "notification.reporter_phone"
path_of Attribute.policy_number = "policy.policy_number"
path_of Attribute.insured_name = "policy.insured_name"
path_of Attribute.insured_organisation = "policy.insured_organisation"
path_of Attribute.policy_type = "policy.policy_type"
path_of Attribute.date_of_loss = "loss.date_of_loss"
path_of Attribute.loss_location = "loss.loss_location"
path_of Attribute.loss_country = "loss.loss_country"
path_of Attribute.loss_description = "loss.loss_description"
path_of Attribute.cause_of_loss = "loss.cause_of_loss"
path_of Attribute.affected_assets = "loss.affected_assets"
path_of Attribute.injuries = "loss.injuries"
path_of Attribute.fatalities = "loss.fatalities"
path_of Attribute.estimated_loss_minor = "financial.estimated_loss"
path_of Attribute.repair_estimate_minor = "financial.repair_estimate"
path_of Attribute.police_reference = "additional.police_reference"
path_of Attribute.incident_reference = "additional.incident_reference"
path_of Attribute.authorities_involved = "additional.authorities_involved"

-- A column's value in a snapshot.
abbrev pub shown : Option Value → AuditValue
shown none = missing
shown (some (text s)) = words s
shown (some (number n)) = amount n
shown (some (stamp t)) = moment t

-- Every column's path has a label and a section.
has_meta : (a : Attribute) → is_some (field_meta (path_of a)) ≡ true
unfolding field_meta lob_required_fields
has_meta Attribute.reporter_name = refl
has_meta _ = refl
