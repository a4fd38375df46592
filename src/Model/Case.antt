-- ===== src/Model/Case.antt =====
-- `FNOLCase` of `app/models/fnol.py`. The columns that the code reads and writes by name, through
-- `getattr` and `setattr`, are functions of the column's name.
use claims_workbench_be.Common.{
  ℕ, ◌≡◌, refl, Bool, Option, none, some, List, [], ◌∷◌, String, ◌==◌, if◌then◌else◌, get_or, BEq,
  enum_eq, string_eq, ◌/◌, true, false,
}
use claims_workbench_be.References.{Text}
use claims_workbench_be.Enums.Intake.{FnolStatus, ProcessingState}

pub data Attribute : Type 0 where
  reporter_name reporter_organisation reporter_role reporter_email reporter_phone : Attribute
  policy_number insured_name insured_organisation policy_type : Attribute
  date_of_loss loss_location loss_country loss_description cause_of_loss : Attribute
  affected_assets injuries fatalities estimated_loss_minor repair_estimate_minor : Attribute
  police_reference incident_reference authorities_involved : Attribute

abbrev pub attributes : List Attribute
attributes =
    reporter_name ∷ reporter_organisation ∷ reporter_role ∷ reporter_email ∷ reporter_phone
    ∷ policy_number ∷ insured_name ∷ insured_organisation ∷ policy_type ∷ date_of_loss
    ∷ loss_location ∷ loss_country ∷ loss_description ∷ cause_of_loss ∷ affected_assets ∷ injuries
    ∷ fatalities ∷ estimated_loss_minor ∷ repair_estimate_minor ∷ police_reference
    ∷ incident_reference ∷ authorities_involved ∷ []

abbrev pub attribute_rank : Attribute → ℕ
attribute_rank reporter_name = 0
attribute_rank reporter_organisation = 1
attribute_rank reporter_role = 2
attribute_rank reporter_email = 3
attribute_rank reporter_phone = 4
attribute_rank policy_number = 5
attribute_rank insured_name = 6
attribute_rank insured_organisation = 7
attribute_rank policy_type = 8
attribute_rank date_of_loss = 9
attribute_rank loss_location = 10
attribute_rank loss_country = 11
attribute_rank loss_description = 12
attribute_rank cause_of_loss = 13
attribute_rank affected_assets = 14
attribute_rank injuries = 15
attribute_rank fatalities = 16
attribute_rank estimated_loss_minor = 17
attribute_rank repair_estimate_minor = 18
attribute_rank police_reference = 19
attribute_rank incident_reference = 20
attribute_rank authorities_involved = 21

pub get_or-attribute_rank : (a : Attribute) → get_or attributes (attribute_rank a) reporter_name ≡ a
get_or-attribute_rank reporter_name = refl
get_or-attribute_rank _ = refl

instance abbrev pub attribute_eq : BEq Attribute
attribute_eq = enum_eq attribute_rank attributes reporter_name get_or-attribute_rank

-- The Boolean columns that an officer may toggle.
pub data Flag : Type 0 where
  business_interruption structural_damage environmental_exposure potential_litigation : Flag

abbrev pub flags : List Flag
flags =
    business_interruption ∷ structural_damage ∷ environmental_exposure ∷ potential_litigation ∷ []

abbrev pub flag_rank : Flag → ℕ
flag_rank business_interruption = 0
flag_rank structural_damage = 1
flag_rank environmental_exposure = 2
flag_rank potential_litigation = 3

pub get_or-flag_rank : (a : Flag) → get_or flags (flag_rank a) business_interruption ≡ a
get_or-flag_rank business_interruption = refl
get_or-flag_rank _ = refl

instance abbrev pub flag_eq : BEq Flag
flag_eq = enum_eq flag_rank flags business_interruption get_or-flag_rank

-- What a column holds: a text, a count or an amount, a time.
pub data Value : Type 0 where
  text : String → Value
  number : ℕ → Value
  stamp : ℕ → Value

pub record FnolCase : Type 0 where
  pub id : ℕ
  pub reference : Text
  pub status : FnolStatus
  pub processing_state : ProcessingState
  pub processing_error : Option String
  pub received_at : ℕ
  pub external_reference : Option String
  pub source_body : Option String
  pub column : Attribute → Option Value
  pub flag : Flag → Bool
  pub policy_id : Option ℕ
  pub policy_confirmed : Bool
  pub line_of_business : Option String
  pub claim_type : Option String
  pub loss_type : Option String
  pub classification_confidence : Option ℕ
  pub classification_overridden : Bool
  pub currency : String
  pub severity : Option String
  pub severity_confidence : Option ℕ
  pub severity_overridden : Bool
  pub fraud_risk : Option String
  pub extraction_confidence : Option ℕ
  pub cat_event_id : Option ℕ
  pub cat_confidence : Option ℕ
  pub cat_confirmed : Bool
  pub claim_id : Option ℕ

-- `setattr(case, attribute, value)`
abbrev pub set_column : FnolCase → Attribute → Option Value → FnolCase
set_column c a v = record c { column = λ b. if a == b then v else c.column b }

abbrev pub set_flag_column : FnolCase → Flag → Bool → FnolCase
set_flag_column c a v = record c { flag = λ b. if a == b then v else c.flag b }

-- A column as the type that its declaration gives it.
abbrev pub as_text : Option Value → Option String
as_text (some (text s)) = some s
as_text _ = none

abbrev pub as_number : Option Value → Option ℕ
as_number (some (number n)) = some n
as_number _ = none

abbrev pub as_stamp : Option Value → Option ℕ
as_stamp (some (stamp t)) = some t
as_stamp _ = none

-- Python's truth value of an optional text: the empty text is false.
abbrev pub holds_text : Option String → Bool
holds_text none = false
holds_text (some s) = if s == "" then false else true

-- The day of a time, counted from the same origin.
abbrev pub day_of : ℕ → ℕ
day_of t = t / 86400000000
