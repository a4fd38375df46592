-- ===== src/Edits.antt =====
-- An officer's corrections: `update_fields`, `_set_flag` and `_coerce` of
-- `app/services/fnol/service.py`. An error leaves nothing: the caller's transaction is rolled back.
pub mod Update
pub mod Unchanged
pub mod Typed
use claims_workbench_be.Common.{
  ℕ, Bool, true, false, not, Option, none, some, List, [], ◌∷◌, ◌++◌, String, nat_eq, string_eq,
  ◌==◌, if◌then◌else◌,
}
use claims_workbench_be.Model.Case.{Attribute, attribute_eq, Value, text, number, stamp, Flag}
use claims_workbench_be.Normalisation.{
  Python, parse_datetime, parse_money_minor, parse_count, parse_email, parse_phone, parse_bool,
  clip,
}

pub data Kind : Type 0 where
  free_text email phone datetime count money : Kind

-- `_EDITABLE`
abbrev pub editable : List (String × (Attribute × Kind))
editable =
    ("notification.reporter_name", (Attribute.reporter_name, free_text))
    ∷ ("notification.reporter_organisation", (Attribute.reporter_organisation, free_text))
    ∷ ("notification.reporter_role", (Attribute.reporter_role, free_text))
    ∷ ("notification.reporter_email", (Attribute.reporter_email, email))
    ∷ ("notification.reporter_phone", (Attribute.reporter_phone, phone))
    ∷ ("policy.policy_number", (Attribute.policy_number, free_text))
    ∷ ("policy.insured_name", (Attribute.insured_name, free_text))
    ∷ ("policy.insured_organisation", (Attribute.insured_organisation, free_text))
    ∷ ("policy.policy_type", (Attribute.policy_type, free_text))
    ∷ ("loss.date_of_loss", (Attribute.date_of_loss, datetime))
    ∷ ("loss.loss_location", (Attribute.loss_location, free_text))
    ∷ ("loss.loss_country", (Attribute.loss_country, free_text))
    ∷ ("loss.loss_description", (Attribute.loss_description, free_text))
    ∷ ("loss.cause_of_loss", (Attribute.cause_of_loss, free_text))
    ∷ ("loss.affected_assets", (Attribute.affected_assets, free_text))
    ∷ ("loss.injuries", (Attribute.injuries, count))
    ∷ ("loss.fatalities", (Attribute.fatalities, count))
    ∷ ("financial.estimated_loss", (Attribute.estimated_loss_minor, money))
    ∷ ("financial.repair_estimate", (Attribute.repair_estimate_minor, money))
    ∷ ("additional.police_reference", (Attribute.police_reference, free_text))
    ∷ ("additional.incident_reference", (Attribute.incident_reference, free_text))
    ∷ ("additional.authorities_involved", (Attribute.authorities_involved, free_text))
    ∷ []

-- How the input for a column is read.
abbrev pub kind_of : Attribute → Kind
kind_of Attribute.reporter_email = email
kind_of Attribute.reporter_phone = phone
kind_of Attribute.date_of_loss = datetime
kind_of Attribute.injuries = count
kind_of Attribute.fatalities = count
kind_of Attribute.estimated_loss_minor = money
kind_of Attribute.repair_estimate_minor = money
kind_of _ = free_text

-- `_EDITABLE_FLAGS`
abbrev pub editable_flags : List (String × Flag)
editable_flags =
    ("loss.business_interruption", Flag.business_interruption)
    ∷ ("loss.structural_damage", Flag.structural_damage)
    ∷ ("loss.environmental_exposure", Flag.environmental_exposure)
    ∷ ("additional.potential_litigation", Flag.potential_litigation)
    ∷ []

-- `_TEXT_LIMITS.get(attribute, 255)`
abbrev pub text_limit : Attribute → ℕ
text_limit Attribute.loss_description = 4000
text_limit Attribute.loss_location = 2000
text_limit Attribute.affected_assets = 2000
text_limit Attribute.authorities_involved = 2000
text_limit _ = 255

-- A value as the request has it; one that is neither a text nor a Boolean is the text that `str` gives.
pub data Raw : Type 0 where
  nothing : Raw
  written : String → Raw
  toggled : Bool → Raw
  other : String → Raw

-- `str(raw)`
abbrev pub str_raw : Raw → String
str_raw nothing = "None"
str_raw (written s) = s
str_raw (toggled true) = "True"
str_raw (toggled false) = "False"
str_raw (other s) = s

-- `raw is None or (isinstance(raw, str) and not raw.strip())`
abbrev pub is_blank : (String → String) → Raw → Bool
is_blank strip nothing = true
is_blank strip (written s) = strip s == ""
is_blank strip _ = false

-- A value for the column, with the text that is shown for it; `none` is the validation error.
abbrev pub Coerced : Type 0
Coerced = Option (Option Value × Option String)

abbrev pub coerced_stamp : (ℕ → String) → Option ℕ → Coerced
coerced_stamp isoformat none = none
coerced_stamp isoformat (some t) = some (some (stamp t), some (isoformat t))

abbrev pub coerced_money : String → Option ℕ → Coerced
coerced_money raw none = none
coerced_money raw (some n) = some (some (number n), some raw)

abbrev pub coerced_count : (ℕ → String) → Option ℕ → Coerced
coerced_count str_of none = none
coerced_count str_of (some n) = some (some (number n), some (str_of n))

abbrev pub coerced_text : Option String → Coerced
coerced_text none = none
coerced_text (some s) = some (some (text s), some s)

abbrev pub clipped : Option String → Coerced
clipped none = some (none, none)
clipped (some s) = some (some (text s), some s)

module _ (py : Python) (now : ℕ) where
  abbrev pub coerce_text : Kind → String → Attribute → Coerced
  coerce_text datetime t a = coerced_stamp py.isoformat (parse_datetime py now (some t) none)
  coerce_text money t a = coerced_money t (parse_money_minor py (some t))
  coerce_text count t a = coerced_count py.str_of (parse_count py 100000 (some t))
  coerce_text email t a = coerced_text (parse_email py (some t))
  coerce_text phone t a = coerced_text (parse_phone py (some t))
  coerce_text free_text t a = clipped (clip py (text_limit a) (some t))

  -- `_coerce`
  unfoldable pub coerce : Kind → Raw → Attribute → Coerced
  coerce kind raw a =
      if is_blank py.strip raw
      then some (none, none)
      else coerce_text kind (py.strip (str_raw raw)) a

  -- The truth value that `_set_flag` reads.
  unfoldable pub flag_value : Raw → Option Bool
  flag_value (toggled b) = some b
  flag_value raw = parse_bool py (some (str_raw raw))
