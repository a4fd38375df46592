-- ===== src/Completeness.antt =====
-- How much of what a claim needs a notification states: `assess_completeness`, `_is_present` and
-- `_conflicts` of `app/domain/assessment.py`. Weights are doubled, so that half a field's credit is a
-- whole number; the score is the pair of its numerator and denominator, before the rounding to four
-- digits. `getattr(case, …)` finds every column on a case.
pub mod Score
pub mod Missing
use claims_workbench_be.Common.{
  ℕ, ◌+◌, ◌*◌, Bool, true, false, ◌&&◌, ◌||◌, Option, none, some, List, [], ◌∷◌, ◌++◌, String, ◌==◌,
  ◌∈?◌, string_eq, if◌then◌else◌, ltb, nat_beq, keep, some_or,
}
use claims_workbench_be.Enums.Assessment.{LineOfBusiness, line_of_business_of}
use claims_workbench_be.Model.Case.{
  FnolCase, Attribute, Value, text, as_number, as_stamp, as_text, holds_text,
}
use claims_workbench_be.Rules.RequiredFields.{RequiredField, required_fields}

pub data FieldState : Type 0 where
  present missing uncertain conflicting : FieldState

pub record FieldStatus : Type 0 where
  pub path : String
  pub label : String
  pub section : String
  pub critical : Bool
  pub state : FieldState

pub record CompletenessResult : Type 0 where
  pub earned : ℕ
  pub available : ℕ
  pub present : List FieldStatus
  pub missing : List FieldStatus
  pub uncertain : List FieldStatus
  pub conflicting : List FieldStatus

unfoldable pub missing_critical : CompletenessResult → List FieldStatus
missing_critical r = keep (λ s. s.critical) r.missing

-- `FIELD_READERS`
abbrev pub field_readers : List (String × Attribute)
field_readers =
    ("notification.reporter_name", Attribute.reporter_name)
    ∷ ("notification.reporter_organisation", Attribute.reporter_organisation)
    ∷ ("notification.reporter_role", Attribute.reporter_role)
    ∷ ("notification.reporter_email", Attribute.reporter_email)
    ∷ ("notification.reporter_phone", Attribute.reporter_phone)
    ∷ ("policy.policy_number", Attribute.policy_number)
    ∷ ("policy.insured_name", Attribute.insured_name)
    ∷ ("policy.insured_organisation", Attribute.insured_organisation)
    ∷ ("policy.policy_type", Attribute.policy_type)
    ∷ ("loss.date_of_loss", Attribute.date_of_loss)
    ∷ ("loss.loss_location", Attribute.loss_location)
    ∷ ("loss.loss_country", Attribute.loss_country)
    ∷ ("loss.loss_description", Attribute.loss_description)
    ∷ ("loss.cause_of_loss", Attribute.cause_of_loss)
    ∷ ("loss.affected_assets", Attribute.affected_assets)
    ∷ ("loss.injuries", Attribute.injuries)
    ∷ ("loss.fatalities", Attribute.fatalities)
    ∷ ("financial.estimated_loss", Attribute.estimated_loss_minor)
    ∷ ("financial.repair_estimate", Attribute.repair_estimate_minor)
    ∷ ("additional.police_reference", Attribute.police_reference)
    ∷ ("additional.incident_reference", Attribute.incident_reference)
    ∷ ("additional.authorities_involved", Attribute.authorities_involved)
    ∷ []

-- `dict.get` on a table with texts for keys.
unfoldable pub get_path {ℓ} : {A : Type ℓ} → String → List (String × A) → Option A
get_path path [] = none
get_path path ((p, a) ∷ rest) = if p == path then some a else get_path path rest

unfoldable pub read_field : FnolCase → String → Option Value
unfolding get_path
read_field c path = elim (get_path path field_readers) [ none ↦ none | some a ↦ c.column a ]

-- What `_is_present` says of a value: a text of blanks is absent. `strip` is Python's `str.strip`.
abbrev pub value_present : (String → String) → Option Value → Bool
value_present strip none = false
value_present strip (some (text s)) = if strip s == "" then false else true
value_present strip (some _) = true

unfoldable pub is_present : (String → String) → FnolCase → RequiredField → ℕ → List String → Bool
unfolding read_field
is_present strip c requirement document_count party_roles =
    if requirement.path == "documents.supporting"
    then ltb 0 document_count
    else if requirement.path == "parties.claimant_name"
    then ("claimant" ∈? party_roles || "insured" ∈? party_roles)
      || holds_text (as_text (c.column Attribute.insured_name))
    else if requirement.path == "parties.third_parties"
    then "third_party" ∈? party_roles
    else if requirement.path == "parties.witnesses"
    then "witness" ∈? party_roles
    else value_present strip (read_field c requirement.path)

abbrev pub conflict : String → String → String → Bool → FieldStatus
conflict path label section critical = record {
  path = path;
  label = label;
  section = section;
  critical = critical;
  state = FieldState.conflicting;
}

-- `loss_date and received and loss_date > received`; a time is never false.
abbrev pub loss_after_received : FnolCase → Bool
loss_after_received c = elim (as_stamp (c.column Attribute.date_of_loss)) [
  | none ↦ false
  | some loss_date ↦ ltb c.received_at loss_date
]

unfoldable pub conflicts : FnolCase → List FieldStatus
conflicts c =
    let estimate = some_or (as_number (c.column Attribute.estimated_loss_minor)) 0 in
    let repair = some_or (as_number (c.column Attribute.repair_estimate_minor)) 0 in
    let fatalities = some_or (as_number (c.column Attribute.fatalities)) 0 in
    let injuries = some_or (as_number (c.column Attribute.injuries)) 1 in
    (if loss_after_received c
      then conflict "loss.date_of_loss" "Date of loss" "loss" true ∷ []
      else [])
    ++ ((if ltb 0 estimate && (ltb 0 repair && ltb (estimate * 3) repair)
          then conflict "financial.repair_estimate" "Repair estimate" "financial" false ∷ []
          else [])
        ++ (if ltb 0 fatalities && nat_beq injuries 0
            then conflict "loss.injuries" "Injuries reported" "loss" false ∷ []
            else []))

-- `CRITICAL_WEIGHT` and `OPTIONAL_WEIGHT`, doubled.
abbrev pub weight_of : RequiredField → ℕ
weight_of requirement = if requirement.critical then 6 else 2

-- `UNCERTAIN_CREDIT` of a doubled weight.
abbrev pub uncertain_credit : RequiredField → ℕ
uncertain_credit requirement = if requirement.critical then 3 else 1

abbrev pub field_status : RequiredField → FieldState → FieldStatus
field_status requirement state = record {
  path = requirement.path;
  label = requirement.label;
  section = requirement.section;
  critical = requirement.critical;
  state = state;
}

-- `confidence is not None and confidence < threshold`
abbrev pub is_uncertain : ℕ → Option ℕ → Bool
is_uncertain threshold none = false
is_uncertain threshold (some confidence) = ltb confidence threshold

-- One round of the loop: the lists grow at the end.
abbrev pub tally_field : RequiredField → Bool → Bool → CompletenessResult → CompletenessResult
tally_field requirement false unsure r = record r {
  available = r.available + weight_of requirement;
  missing = r.missing ++ (field_status requirement FieldState.missing ∷ []);
}
tally_field requirement true true r = record r {
  available = r.available + weight_of requirement;
  earned = r.earned + uncertain_credit requirement;
  uncertain = r.uncertain ++ (field_status requirement FieldState.uncertain ∷ []);
}
tally_field requirement true false r = record r {
  available = r.available + weight_of requirement;
  earned = r.earned + weight_of requirement;
  present = r.present ++ (field_status requirement FieldState.present ∷ []);
}

-- The loop over the requirements, with the two tests of a round as functions.
pub tally :
    (RequiredField → Bool)
    → (RequiredField → Bool)
    → List RequiredField
    → CompletenessResult
    → CompletenessResult
tally here unsure [] r = r
tally here unsure (requirement ∷ rest) r =
    tally here unsure rest (tally_field requirement (here requirement) (unsure requirement) r)

abbrev pub empty_result : CompletenessResult
empty_result = record {
  earned = 0;
  available = 0;
  present = [];
  missing = [];
  uncertain = [];
  conflicting = [];
}

-- `_line_of_business`
abbrev pub case_line : FnolCase → Option LineOfBusiness
case_line c = elim c.line_of_business [ none ↦ none | some raw ↦ line_of_business_of raw ]

unfoldable pub assess_completeness :
    (String → String)
    → ℕ
    → FnolCase
    → ℕ
    → List String
    → List (String × Option ℕ)
    → CompletenessResult
unfolding tally get_path
assess_completeness strip threshold c document_count party_roles field_confidences =
    let r =
      tally (λ q. is_present strip c q document_count party_roles)
        (λ q.
          is_uncertain threshold
            (elim (get_path q.path field_confidences) [ none ↦ none | some conf ↦ conf ]))
        (required_fields (case_line c)) empty_result in
    record r { conflicting = conflicts c }
