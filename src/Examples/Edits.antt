-- ===== src/Examples/Edits.antt =====
-- An officer's edit of a notification, and an extraction after it.
use claims_workbench_be.Common.{
  ℕ, false, none, some, List, [], ◌∷◌, String, string_eq, ◌==◌, ◌≡◌, ◌↔◌, refl,
}
use claims_workbench_be.Enums.Intake.{FieldSource}
use claims_workbench_be.Model.Case.{text, insured_name}
use claims_workbench_be.Model.Rows.{FnolExtractedField}
use claims_workbench_be.Normalisation.{Python, clip}
use claims_workbench_be.Session.{Session}
use claims_workbench_be.Edits.{Raw, written, coerce}
use claims_workbench_be.Edits.Update.{Officer, edited, change_column, edit, update_fields}
use claims_workbench_be.Common.Each.{Each}
use claims_workbench_be.Edits.Unchanged.{Restates, update_fields-unchanged}
use claims_workbench_be.Extraction.{FnolExtraction}
use claims_workbench_be.Extraction.Corrected.{apply_all, apply_all-edit}
use claims_workbench_be.Repository.Fields.{get_field}
use claims_workbench_be.Examples.Fixtures.{notice, desk}

-- Text functions that leave a text as it is; a pattern finds the whole text, which is the number 250.
abbrev pub plain : Python
plain = record {
  strip = λ s. s;
  strip_of = λ chars s. s;
  lstrip_of = λ chars s. s;
  lower = λ s. s;
  upper = λ s. s;
  replace = λ old new s. s;
  contains = λ s part. s == part;
  prefix = λ limit s. s;
  padded = λ s. s;
  len = λ s. 9;
  search = λ pattern s. some s;
  groups = λ pattern s. [];
  sub = λ pattern by s. s;
  strptime = λ s format. none;
  fromisoformat = λ s. none;
  natural_of = λ s. 0;
  int_of = λ s. (false, 250);
  isoformat = λ t. "";
  str_of = λ n. "";
  title = λ s. s;
  Decimal = ℕ;
  decimal_of = λ s. some 250;
  times = λ d n. d;
  is_negative = λ d. false;
  integral_of = λ d. d;
}

abbrev pub open_notice : Session
open_notice = record { case = notice; db = desk }

abbrev pub officer : Officer
officer = record { actor = "A. Reyes"; reason = some "Read from the schedule"; now = 300 }

-- The extraction reads another name for every field.
abbrev pub another_reading : FnolExtraction
another_reading = record {
  field = λ a. record { value = some "Acne Ltd"; confidence = 70; evidence = none };
  time_of_loss = none;
  currency = none;
  flag = λ a. none;
  parties = [];
  overall_confidence = 70;
}

abbrev corrections : List (String × Raw)
corrections = ("policy.insured_name", written "Acme Holdings") ∷ []

abbrev renamed : Session
renamed =
    change_column officer "policy.insured_name" insured_name (some (text "Acme Holdings"))
      (some "Acme Holdings") open_notice

apply_all-edit_example :
    (s' : Session) × (edit plain officer "policy.insured_name" (written "Acme Holdings") open_notice
      ≡ edited ("policy.insured_name" ∷ []) s')
    × (s'.case.column insured_name ≡ some (text "Acme Holdings"))
    × ((apply_all plain "GBP" ((400, another_reading) ∷ []) s').case.column insured_name
        ≡ some (text "Acme Holdings"))
    × ((g : FnolExtractedField) × (get_field 1 "policy.insured_name"
            (apply_all plain "GBP" ((400, another_reading) ∷ []) s').db
          ≡ some g)
        × (g.value_text ≡ some "Acme Holdings")
        × (g.source ≡ FieldSource.human)
        × (g.modified_by ≡ some "A. Reyes"))
unfolding coerce clip
apply_all-edit_example =
    apply_all-edit plain officer insured_name "GBP" (written "Acme Holdings")
      (some (text "Acme Holdings")) (some "Acme Holdings") ((400, another_reading) ∷ []) open_notice
      refl refl

abbrev same_name : List (String × Raw)
same_name = ("policy.insured_name", written "Acme Ltd") ∷ []

update_fields-unchanged_example :
    (update_fields plain officer same_name open_notice ≡ edited [] open_notice)
    ↔ ((open_notice ≡ open_notice) × Each (Restates plain officer open_notice) same_name)
update_fields-unchanged_example =
    update_fields-unchanged plain officer same_name open_notice open_notice
