-- ===== src/Rules/FieldMeta.antt =====
-- `_FIELD_META` of `app/services/fnol/extraction.py`: the label and the section of a field path, from
-- the required fields. Of several entries for a path the last counts, as in a Python dictionary. Every path that
-- is written has an entry, so the default that the code gives to `get` is never used.
use claims_workbench_be.Common.{
  Option, none, some, or_else, List, [], ◌∷◌, ◌++◌, String, string_eq, ◌==◌, if◌then◌else◌,
}
use claims_workbench_be.Enums.Assessment.{LineOfBusiness}
use claims_workbench_be.Rules.RequiredFields.{
  RequiredField, base_required_fields, lob_required_fields,
}

abbrev pub lob_fields : List RequiredField
lob_fields =
    lob_required_fields LineOfBusiness.property
    ++ (lob_required_fields LineOfBusiness.motor
        ++ (lob_required_fields LineOfBusiness.marine
            ++ (lob_required_fields LineOfBusiness.liability
                ++ (lob_required_fields LineOfBusiness.casualty
                    ++ (lob_required_fields LineOfBusiness.workers_compensation
                        ++ (lob_required_fields LineOfBusiness.cyber
                            ++ (lob_required_fields LineOfBusiness.construction
                                ++ lob_required_fields LineOfBusiness.engineering)))))))

abbrev pub meta_of : List RequiredField → List (String × (String × String))
meta_of [] = []
meta_of (r ∷ rest) = (r.path, (r.label, r.section)) ∷ meta_of rest

abbrev pub more_meta : List (String × (String × String))
more_meta =
    ("notification.reporter_organisation", ("Reporter organisation", "notification"))
    ∷ ("notification.reporter_role", ("Reporter role", "notification"))
    ∷ ("notification.reporter_phone", ("Reporter phone", "notification"))
    ∷ ("policy.insured_organisation", ("Insured organisation", "policy"))
    ∷ ("policy.policy_type", ("Policy type", "policy"))
    ∷ ("loss.injuries", ("Injuries", "loss"))
    ∷ ("loss.fatalities", ("Fatalities", "loss"))
    ∷ ("additional.incident_reference", ("Incident reference", "additional"))
    ∷ ("additional.authorities_involved", ("Authorities involved", "additional"))
    ∷ []

abbrev pub last_meta : String → List (String × (String × String)) → Option (String × String)
last_meta path [] = none
last_meta path ((p, meta) ∷ rest) =
    or_else (last_meta path rest) (if p == path then some meta else none)

-- `_FIELD_META.get(path)`
unfoldable pub field_meta : String → Option (String × String)
field_meta path = last_meta path (meta_of (base_required_fields ++ lob_fields) ++ more_meta)

abbrev pub label_of : String → String
label_of path = elim (field_meta path) [ none ↦ "" | some meta ↦ meta.0 ]

abbrev pub section_of : String → String
section_of path = elim (field_meta path) [ none ↦ "" | some meta ↦ meta.1 ]
