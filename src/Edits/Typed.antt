-- ===== src/Edits/Typed.antt =====
-- What the columns of a case hold: `update_fields` of `app/services/fnol/service.py` keeps their types
-- and the bounds of `app/domain/normalisation.py`.
use claims_workbench_be.Common.{
  ℕ, ◌≤◌, Bool, true, false, Option, none, some, List, [], ◌∷◌, String, string_eq, ◌≡◌, inl, inr,
  leb, arith, eq_cases, subst,
}
use claims_workbench_be.Model.Case.{
  Attribute, attribute_eq, Value, text, number, stamp, FnolCase, set_column,
}
use claims_workbench_be.Normalisation.{max_loss_minor}
use claims_workbench_be.Session.{Session}
use claims_workbench_be.Edits.{
  Kind, free_text, email, phone, datetime, count, money, kind_of, Coerced,
}
use claims_workbench_be.Edits.Update.{Edited, refused, edited}

-- Whether a value fits a column: the type that the column is declared with, and the bounds.
abbrev pub fits : Kind → Option Value → Bool
fits kind none = true
fits free_text (some (text s)) = true
fits email (some (text s)) = true
fits phone (some (text s)) = true
fits datetime (some (stamp t)) = true
fits count (some (number n)) = leb n 100000
fits money (some (number n)) = leb n max_loss_minor
fits kind (some v) = false

abbrev pub IsTyped : FnolCase → Type 0
IsTyped c = (a : Attribute) → fits (kind_of a) (c.column a) ≡ true

pub money-fits : (n : ℕ) → n ≤ max_loss_minor → fits money (some (number n)) ≡ true
money-fits n h = ground arith

pub count-fits : (n : ℕ) → n ≤ 100000 → fits count (some (number n)) ≡ true
count-fits n h = ground arith

pub set_column-IsTyped :
    (c : FnolCase) (a : Attribute) (v : Option Value)
    → fits (kind_of a) v ≡ true
    → IsTyped c
    → IsTyped (set_column c a v)
set_column-IsTyped c a v t h b = elim (eq_cases a b) [
  | inl (y, same) ↦ rw y (subst (λ x. fits (kind_of x) v ≡ true) same t)
  | inr (n, _) ↦ rw n (h b)
]

abbrev Fitting : Kind → Coerced → Type 0
Fitting kind none = Unit {0}
Fitting kind (some (v, display)) = fits kind v ≡ true

-- The table of editable fields reads each column by its kind.
abbrev Agrees : List (String × (Attribute × Kind)) → Type 0
Agrees [] = Unit {0}
Agrees ((p, (a, kind)) ∷ rest) = (kind ≡ kind_of a) × Agrees rest

abbrev Coherent : Option (Attribute × Kind) → Type 0
Coherent none = Unit {0}
Coherent (some (a, kind)) = kind ≡ kind_of a

abbrev Sound : Edited → Type 0
Sound (refused path) = Unit {0}
Sound (edited changed s) = IsTyped s.case
