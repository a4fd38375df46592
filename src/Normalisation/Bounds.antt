-- ===== src/Normalisation/Bounds.antt =====
-- What `app/domain/normalisation.py` lets through: amounts, counts and times within bounds, and no
-- party role but the known ones.
use claims_workbench_be.Common.{
  ℕ, ◌+◌, ◌≤◌, Bool, true, false, Option, none, some, some_or, String, string_eq, ◌==◌, ◌∈?◌, ◌≡◌,
  refl, if◌then◌else◌, leb, Bool-cases, inl, inr, arith,
}
use claims_workbench_be.Completeness.{get_path}
use claims_workbench_be.Normalisation.{
  Python, given, future_tolerance, max_backdate, max_loss_minor, party_roles, party_role_aliases,
  plausible, within, stamp_of, minor_of, multiplier_of, parse_date, parse_datetime,
  parse_money_minor, parse_count, known_role, key_of, parse_party_role,
}

-- A value, if there is one, that a predicate holds of.
abbrev pub Every {ℓ} : {A : Type ℓ} → (A → Type 0) → Option A → Type 0
Every P none = Unit {0}
Every P (some a) = P a

pub given-Every {ℓ} :
    {A : Type ℓ} (P : A → Type 0) (value : Option String) (f : String → Option A)
    → ((v : String) → Every P (f v))
    → Every P (given value f)
given-Every P none f h = tt
given-Every P (some v) f h = elim (Bool-cases (v == "")) [ inl t ↦ rw t tt | inr n ↦ rw n (h v) ]

abbrev pub InWindow : ℕ → ℕ → Type 0
InWindow now stamp = (stamp ≤ now + future_tolerance) × (now ≤ stamp + max_backdate)

plausible-Every : (now stamp : ℕ) → Every (InWindow now) (plausible now stamp)
plausible-Every now stamp = ground arith

within-Every : (maximum : ℕ) (n : Bool × ℕ) → Every (λ count. count ≤ maximum) (within maximum n)
within-Every maximum (true, size) = ground arith
within-Every maximum (false, size) = ground arith

module _ (py : Python) where
  stamp_of-Every :
      (now : ℕ) (time : Option String) (day : Option ℕ)
      → Every (InWindow now) (stamp_of py now time day)
  stamp_of-Every now time none = tt
  stamp_of-Every now time (some day) = plausible-Every now _

  -- A time that is read lies at most a day after now and at most ten years before it.
  pub parse_datetime-Every :
      (now : ℕ) (date time : Option String) → Every (InWindow now) (parse_datetime py now date time)
  unfolding parse_datetime
  parse_datetime-Every now date time = stamp_of-Every now time (parse_date py date)

  minor_of-Every :
      (read : Option py.Decimal) (multiplier : ℕ)
      → Every (λ minor. minor ≤ max_loss_minor) (minor_of py read multiplier)
  minor_of-Every none multiplier = tt
  minor_of-Every (some read) multiplier =
      elim (Bool-cases (py.is_negative (py.times read multiplier))) [
        | inl t ↦ rw t tt
        | inr n ↦ rw n (at_most (py.integral_of (py.times (py.times read multiplier) 100)))
      ]
    where
      at_most :
          (minor : ℕ)
          → Every (λ m. m ≤ max_loss_minor) (if leb minor max_loss_minor then some minor else none)
      at_most minor = ground arith

  -- An amount that is read is at most the largest loss.
  pub parse_money_minor-Every :
      (value : Option String) → Every (λ minor. minor ≤ max_loss_minor) (parse_money_minor py value)
  unfolding parse_money_minor
  parse_money_minor-Every value = given-Every _ value _ (λ v. figure v (py.search _ _))
    where
      figure :
          (v : String) (found : Option String)
          → Every
              (λ minor. minor ≤ max_loss_minor)
              (elim found [
                | none ↦ none
                | some figure ↦
                    minor_of py
                      (py.decimal_of (py.replace " " "" (py.replace "," "" figure)))
                      (multiplier_of py (py.lower (py.strip v)))
              ])
      figure v none = tt
      figure v (some text) = minor_of-Every _ _

  -- A count that is read is at most the maximum.
  pub parse_count-Every :
      (maximum : ℕ) (value : Option String)
      → Every (λ count. count ≤ maximum) (parse_count py maximum value)
  unfolding parse_count
  parse_count-Every maximum value = given-Every _ value _ λ v. branch (_) (py.search _ _)
    where
      branch :
          (b : Bool) (found : Option String)
          → Every
              (λ count. count ≤ maximum)
              (if b
                then some 0
                else elim found [ none ↦ none | some figure ↦ within maximum (py.int_of figure) ])
      branch true found = omega arith
      branch false none = tt
      branch false (some figure) = within-Every maximum (py.int_of figure)

  known : (key : String) → (known_role py key ∈? party_roles) ≡ true
  known key = elim (Bool-cases (key ∈? party_roles)) [ inl t ↦ rw t t | inr n ↦ rw n refl ]

  -- Whatever a model calls a party, its role is one of those that the system knows.
  pub parse_party_role-known :
      (value : Option String) → (parse_party_role py value ∈? party_roles) ≡ true
  unfolding parse_party_role
  parse_party_role-known none = refl
  parse_party_role-known (some value) = elim (Bool-cases (value == "")) [
    | inl t ↦ rw t refl
    | inr n ↦
        rw n (known (some_or (get_path (key_of py value) party_role_aliases) (key_of py value)))
  ]
