-- ===== src/Extraction/Human.antt =====
-- What an extraction leaves alone: the columns that a human has set (`apply` of
-- `app/services/fnol/extraction.py` with `upsert_field` of `app/repositories/fnol.py`).
use claims_workbench_be.Common.{
  ℕ, Bool, true, false, Option, none, some, List, [], ◌∷◌, String, nat_eq, string_eq, ◌≡◌, refl,
  sym, ◌∙◌, ap, ◌==◌, Bool-cases, inl, inr, eq_cases,
}
use claims_workbench_be.Common.Table.{upserted, pair_eq}
use claims_workbench_be.Model.Case.{Attribute, attribute_eq, Value, Flag}
use claims_workbench_be.Model.Rows.{FnolExtractedField, FnolParty}
use claims_workbench_be.Model.Db.{Db}
use claims_workbench_be.Repository.Fields.{
  field_key, get_field, Reading, new_field, reread, upsert_field, Kept, Kept-upsert_field,
}
use claims_workbench_be.Repository.Parties.{upsert_party}
use claims_workbench_be.Normalisation.{Python, parse_bool}
use claims_workbench_be.Session.{Session, is_human, path_of}
use claims_workbench_be.Extraction.{ExtractedField, PartyExtraction, FnolExtraction, parsed}
use claims_workbench_be.Extraction.Apply.{
  ai_reading, row_after, take_value, record_field, record_fields, first_columns, last_columns,
  extracted_flags, set_currency, take_flag, take_flags, take_parties, apply,
}

-- The column of a field that a human has set, and its row.
abbrev pub Held : ℕ → Attribute → Option Value → FnolExtractedField → Session → Type 0
Held i a v f s = (s.case.id ≡ i) × (s.case.column a ≡ v) × Kept i (path_of a) f s.db

module _ (i : ℕ) (a : Attribute) (v : Option Value) (f : FnolExtractedField) where
  Kept-fields :
      (d d' : Db) → d'.fields ≡ d.fields → Kept i (path_of a) f d → Kept i (path_of a) f d'
  unfolding get_field
  Kept-fields d d' e (g, h, same) = (g, rw e h, same)

  take_value-Held :
      (b : Attribute) (value : Option Value) (human : Bool) (s : Session)
      → ((b == a) ≡ true → human ≡ true)
      → Held i a v f s
      → Held i a v f (take_value b value human s)
  take_value-Held b none human s law h = h
  take_value-Held b (some w) true s law h = h
  take_value-Held b (some w) false s law (at, column, kept) = elim (Bool-cases (b == a)) [
    | inl t ↦ let no : false ≡ true = law t in cc
    | inr n ↦ (at, rw n column, kept)
  ]

  human-reread :
      (r : Reading) (g : FnolExtractedField) → (reread r g).human_modified ≡ g.human_modified
  human-reread r g = elim (Bool-cases g.human_modified) [ inl t ↦ rw t | inr n ↦ rw n ]

  human-row_after :
      (r : Reading) (d : Db)
      → r.field_path ≡ path_of a
      → f.human_modified ≡ true
      → Kept i (path_of a) f d
      → (row_after i r d).human_modified ≡ true
  human-row_after r d e human (g, found, same) =
      ap (λ row. (upserted field_key (new_field i r) (reread r) row).human_modified)
        (ap (λ p. get_field i p d) e ∙ found)
      ∙ (human-reread r g ∙ (same.3 ∙ human))

  record_field-Held :
      (b : Attribute) (field : ExtractedField) (value : Option Value) (s : Session)
      → f.human_modified ≡ true
      → Held i a v f s
      → Held i a v f (record_field b field value s).1
  unfolding record_field
  record_field-Held b field value s human (at, column, kept) =
      let r = ai_reading (path_of b) field in
      take_value-Held b value (row_after s.case.id r s.db).human_modified
        (record s { db = upsert_field s.case.id r s.db })
        (λ t. elim (eq_cases b a) [
          | inl (_, same) ↦
              ap (λ j. (row_after j r s.db).human_modified) at
              ∙ human-row_after r s.db (ap path_of same) human kept
          | inr (n, _) ↦ let no : false ≡ true = sym n ∙ t in cc
        ])
        (at, column, Kept-upsert_field i (path_of a) f s.case.id r s.db human kept)

  module _ (py : Python) (base_currency : String) (now : ℕ) (e : FnolExtraction) where
    record_fields-Held :
        (bs : List Attribute) (s : Session)
        → f.human_modified ≡ true
        → Held i a v f s
        → Held i a v f (record_fields py base_currency now e bs s).1
    unfolding record_fields
    record_fields-Held [] s human h = h
    record_fields-Held (b ∷ bs) s human h =
        record_fields-Held bs _ human
          (record_field-Held b (e.field b) (parsed py now e b) s human h)

    set_currency-Held :
        (s : Session) → Held i a v f s → Held i a v f (set_currency py base_currency now e s)
    set_currency-Held s h =
        elim (Bool-cases (is_human (get_field s.case.id "financial.estimated_loss" s.db))) [
          | inl t ↦ rw t h
          | inr n ↦ rw n h
        ]

    take_flag-Held :
        (b : Flag) (value : Option Bool) (s : Session)
        → Held i a v f s
        → Held i a v f (take_flag b value s)
    take_flag-Held b none s h = h
    take_flag-Held b (some value) s h = h

    take_flags-Held :
        (bs : List Flag) (s : Session)
        → Held i a v f s
        → Held i a v f (take_flags py base_currency now e bs s)
    unfolding take_flags
    take_flags-Held [] s h = h
    take_flags-Held (b ∷ bs) s h =
        take_flags-Held bs _ (take_flag-Held b (parse_bool py (e.flag b)) s h)

    fields-take_parties :
        (j : ℕ) (stored : List FnolParty) (ps : List PartyExtraction) (d : Db)
        → (take_parties py base_currency now e j stored ps d).fields ≡ d.fields
    unfolding take_parties upsert_party
    fields-take_parties j stored [] d = refl
    fields-take_parties j stored (p ∷ ps) d =
        fields-take_parties j stored ps _
        ∙ elim (Bool-cases (py.strip p.name == "")) [ inl t ↦ rw t refl | inr n ↦ rw n refl ]

    -- An extraction leaves the column of a field that a human has set, and what the human decided on
    -- its row, whatever it reads.
    pub apply-Held :
        (s : Session)
        → f.human_modified ≡ true
        → Held i a v f s
        → Held i a v f (apply py base_currency now e s).1
    unfolding apply
    apply-Held s human h =
        let h1 = record_fields-Held first_columns s human h in
        let h2 = record_fields-Held last_columns _ human (set_currency-Held _ h1) in
        let (at, column, kept) = take_flags-Held extracted_flags _ h2 in
        (at, column, Kept-fields _ _ (fields-take_parties _ _ e.parties _) kept)
