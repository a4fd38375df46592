-- ===== src/Edits/Unchanged.antt =====
-- `update_fields` of `app/services/fnol/service.py` on changes that change nothing.
use claims_workbench_be.Common.{
  Bool, Option, none, some, List, [], ◌∷◌, String, ◌≡◌, refl, Bool-cases, inl, inr, ◌∙◌, sym, ap,
  ◌⊎◌, ◌↔◌, ◌≢◌, true, string_eq, nat_eq, arith,
}
use claims_workbench_be.Common.Each.{Each}
use claims_workbench_be.Completeness.{get_path}
use claims_workbench_be.Model.Case.{Attribute, Flag, Value, text, number, stamp}
use claims_workbench_be.Normalisation.{Python}
use claims_workbench_be.Session.{Session}
use claims_workbench_be.Edits.{Kind, editable, editable_flags, Raw, Coerced, coerce, flag_value}
use claims_workbench_be.Edits.Update.{
  Officer, Edited, refused, edited, same_value, same_flag, edit_column, edit_flag, edit_known, edit,
  and_then, update_fields,
}

-- A result that reports no path is the state that was there.
abbrev Quiet : Session → Edited → Type 0
Quiet s (refused path) = Unit {0}
Quiet s (edited [] s') = s' ≡ s
Quiet s (edited (path ∷ rest) s') = Unit {0}

same_value_iff : (v w : Option Value) → (same_value v w ≡ true) ↔ (v ≡ w)
same_value_iff none none = (λ e. refl, λ e. refl)
same_value_iff none (some w) = (λ e. cc, λ e. cc)
same_value_iff (some (text a)) (some (text b)) =
    let law = string_eq.beq_decides a b in (λ e. ap (λ x. some (text x)) (law.0 e), λ e. law.1 (cc))
same_value_iff (some (number a)) (some (number b)) =
    let law = nat_eq.beq_decides a b in (λ e. ap (λ x. some (number x)) (law.0 e), λ e. law.1 (cc))
same_value_iff (some (stamp a)) (some (stamp b)) =
    let law = nat_eq.beq_decides a b in (λ e. ap (λ x. some (stamp x)) (law.0 e), λ e. law.1 (cc))
same_value_iff (some (text a)) none = (λ e. cc, λ e. cc)
same_value_iff (some (text a)) (some (number b)) = (λ e. cc, λ e. cc)
same_value_iff (some (text a)) (some (stamp b)) = (λ e. cc, λ e. cc)
same_value_iff (some (number a)) none = (λ e. cc, λ e. cc)
same_value_iff (some (number a)) (some (text b)) = (λ e. cc, λ e. cc)
same_value_iff (some (number a)) (some (stamp b)) = (λ e. cc, λ e. cc)
same_value_iff (some (stamp a)) none = (λ e. cc, λ e. cc)
same_value_iff (some (stamp a)) (some (text b)) = (λ e. cc, λ e. cc)
same_value_iff (some (stamp a)) (some (number b)) = (λ e. cc, λ e. cc)

same_flag_iff : (a b : Bool) → (same_flag a b ≡ true) ↔ (a ≡ b)
same_flag_iff a b = (λ e. ground arith, λ e. ground arith)

value-injective :
    {v w : Option Value} {c d : Option String} → Path Coerced (some (v, c)) (some (w, d)) → v ≡ w
value-injective e = cc

module _ (py : Python) (o : Officer) where
  edit_column-Quiet :
      (path : String) (a : Attribute) (c : Coerced) (s : Session)
      → Quiet s (edit_column py o path a c s)
  edit_column-Quiet path a none s = tt
  edit_column-Quiet path a (some (v, display)) s =
      elim (Bool-cases (same_value v (s.case.column a))) [ inl y ↦ rw y refl | inr n ↦ rw n tt ]

  edit_flag-Quiet :
      (path : String) (a : Flag) (value : Option Bool) (s : Session)
      → Quiet s (edit_flag py o path a value s)
  edit_flag-Quiet path a none s = tt
  edit_flag-Quiet path a (some value) s = elim (Bool-cases (same_flag (s.case.flag a) value)) [
    | inl y ↦ rw y refl
    | inr n ↦ rw n tt
  ]

  edit_known-Quiet :
      (path : String) (known : Option (Attribute × Kind)) (raw : Raw) (s : Session)
      → Quiet s (edit_known py o path known raw s)
  edit_known-Quiet path none raw s = tt
  edit_known-Quiet path (some (a, kind)) raw s =
      edit_column-Quiet path a (coerce py o.now kind raw a) s

  edit-Quiet : (path : String) (raw : Raw) (s : Session) → Quiet s (edit py o path raw s)
  unfolding edit
  edit-Quiet path raw s = which (get_path path editable_flags)
    where
      which :
          (flag : Option Flag)
          → Quiet s (elim flag [
            | some a ↦ edit_flag py o path a (flag_value py o.now raw) s
            | none ↦ edit_known py o path (get_path path editable) raw s
          ])
      which none = edit_known-Quiet path (get_path path editable) raw s
      which (some a) = edit_flag-Quiet path a (flag_value py o.now raw) s

  -- A change that says what is there: the path of a flag with the flag's value, or the path of a column
  -- with an input that is read as the column's value.
  abbrev pub Restates : Session → String × Raw → Type 0
  Restates s (path, raw) =
      ((a : Flag) × (get_path path editable_flags ≡ some a)
        × (flag_value py o.now raw ≡ some (s.case.flag a)))
      ⊎ ((a : Attribute) × (kind : Kind) × (display : Option String) × (get_path path editable_flags
            ≡ none)
          × (get_path path editable ≡ some (a, kind))
          × (coerce py o.now kind raw a ≡ some (s.case.column a, display)))

  edit_column_iff :
      (path : String) (a : Attribute) (c : Coerced) (s : Session)
      → (edit_column py o path a c s ≡ edited [] s)
        ↔ ((display : Option String) × (c ≡ some (s.case.column a, display)))
  edit_column_iff path a none s = (λ e. cc, λ (d, e). cc)
  edit_column_iff path a (some (v, display)) s =
      elim (Bool-cases (same_value v (s.case.column a))) [
        | inl y ↦ (
          λ e. (display, ap (λ w. some (w, display)) ((same_value_iff v (s.case.column a)).0 y)),
          λ x. rw y refl,
        )
        | inr n ↦ (
          λ e. let changed = rw n at e in cc,
          λ (d, e). let same = (same_value_iff v (s.case.column a)).1 (value-injective e) in cc,
        )
      ]

  edit_flag_iff :
      (path : String) (a : Flag) (value : Option Bool) (s : Session)
      → (edit_flag py o path a value s ≡ edited [] s) ↔ (value ≡ some (s.case.flag a))
  edit_flag_iff path a none s = (λ e. cc, λ e. cc)
  edit_flag_iff path a (some value) s = elim (Bool-cases (same_flag (s.case.flag a) value)) [
    | inl y ↦ (λ e. ap some (sym ((same_flag_iff (s.case.flag a) value).0 y)), λ x. rw y refl)
    | inr n ↦ (
      λ e. let changed = rw n at e in cc,
      λ e.
          let equal : s.case.flag a ≡ value = cc in
          let same = (same_flag_iff (s.case.flag a) value).1 equal in cc,
    )
  ]

  edit_iff :
      (path : String) (raw : Raw) (s : Session)
      → (edit py o path raw s ≡ edited [] s) ↔ Restates s (path, raw)
  unfolding edit
  edit_iff path raw s = which (get_path path editable_flags) refl
    where
      column :
          (known : Option (Attribute × Kind))
          → get_path path editable_flags ≡ none
          → get_path path editable ≡ known
          → (edit_known py o path known raw s ≡ edited [] s) ↔ Restates s (path, raw)
      column none n k =
          (λ e. cc, λ r. elim r [ inl (a, g, v) ↦ cc | inr (a, kind, d, m, g, v) ↦ cc ])
      column (some (a, kind)) n k =
          let law = edit_column_iff path a (coerce py o.now kind raw a) s in
          (
            λ e. let (d, v) = law.0 e in inr (a, kind, d, n, k, v),
            λ r. elim r [
              | inl (b, g, v) ↦ cc
              | inr (b, other, d, m, g, v) ↦
                  let b_a : b ≡ a = cc in let other_kind : other ≡ kind = cc in law.1 (d, cc)
            ],
          )

      which :
          (flag : Option Flag)
          → get_path path editable_flags ≡ flag
          → (elim flag [
            | some a ↦ edit_flag py o path a (flag_value py o.now raw) s
            | none ↦ edit_known py o path (get_path path editable) raw s
          ]
              ≡ edited [] s)
            ↔ Restates s (path, raw)
      which none n = column (get_path path editable) n refl
      which (some a) g =
          let law = edit_flag_iff path a (flag_value py o.now raw) s in
          (
            λ e. inl (a, g, law.0 e),
            λ r. elim r [
              | inl (b, h, v) ↦ let same : b ≡ a = cc in law.1 (cc)
              | inr (b, kind, d, m, h, v) ↦ cc
            ],
          )

  and_then-nil : (r : Edited) → and_then py o [] r ≡ r
  and_then-nil (refused path) = refl
  and_then-nil (edited changed s) = refl

  and_then-cons :
      (path : String) (changed : List String) (r : Edited) (s : Session)
      → and_then py o (path ∷ changed) r ≢ edited [] s
  and_then-cons path changed (refused p) s e = cc
  and_then-cons path changed (edited more t) s e = cc

  and_then_iff :
      (r : Edited) (f : Session → Edited) (s s' : Session)
      → Quiet s r
      → (elim r [ refused p ↦ refused p | edited changed t ↦ and_then py o changed (f t) ]
          ≡ edited [] s')
        ↔ ((r ≡ edited [] s) × (f s ≡ edited [] s'))
  and_then_iff (refused p) f s s' q = (λ e. cc, λ (e, l). cc)
  and_then_iff (edited [] t) f s s' q = (
    λ e. (ap (edited []) q, ap f (sym q) ∙ sym (and_then-nil (f t)) ∙ e),
    λ (e, l). and_then-nil (f t) ∙ ap f q ∙ l,
  )
  and_then_iff (edited (path ∷ changed) t) f s s' q =
      (λ e. absurd (and_then-cons path changed (f t) s' e), λ (e, l). cc)

  -- An officer's changes are all accepted and none is reported as a change exactly when each of them
  -- says what is there already; and then the case and every table are as they were: no row of a field
  -- is marked as a human's and nothing is audited.
  pub update_fields-unchanged :
      (changes : List (String × Raw)) (s s' : Session)
      → (update_fields py o changes s ≡ edited [] s') ↔ ((s' ≡ s) × Each (Restates s) changes)
  unfolding update_fields
  update_fields-unchanged [] s s' = (λ e. (cc, tt), λ (e, r). cc)
  update_fields-unchanged ((path, raw) ∷ rest) s s' =
      let law =
        and_then_iff (edit py o path raw s) (update_fields py o rest) s s'
          (edit-Quiet path raw s) in
      let now = edit_iff path raw s in
      let later = update_fields-unchanged rest s s' in
      (
        λ e.
            let (first, others) = law.0 e in
            let (same, each) = later.0 others in (same, (now.0 first, each)),
        λ (same, (first, each)). law.1 (now.1 first, later.1 (same, each)),
      )
