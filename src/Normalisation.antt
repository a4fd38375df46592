-- ===== src/Normalisation.antt =====
-- `app/domain/normalisation.py`: the texts of a notification as values, or nothing. Python's text,
-- regular expression, date and decimal functions are parameters. A day is its ordinal and a time
-- counts microseconds from the same origin.
pub mod Bounds
pub mod Currency
use claims_workbench_be.Common.{
  ℕ, ◌+◌, ◌*◌, Bool, true, false, ◌&&◌, ◌||◌, Option, none, some, some_or, or_else, List, [], ◌∷◌,
  String, string_eq, ◌==◌, ◌∈?◌, if◌then◌else◌, ltb, leb,
}
use claims_workbench_be.Enums.Assessment.{LineOfBusiness, line_of_business_of}
use claims_workbench_be.Completeness.{get_path}

-- `str` methods, `in`, `re`, `datetime` and `decimal`. `search` is the text of the whole match and
-- `groups` those of its groups; `int_of` is the sign and the size of an integer.
pub record Python : Type 1 where
  pub strip : String → String
  pub strip_of : String → String → String
  pub lstrip_of : String → String → String
  pub lower : String → String
  pub upper : String → String
  pub replace : String → String → String → String
  pub contains : String → String → Bool
  pub prefix : ℕ → String → String
  pub padded : String → String
  pub len : String → ℕ
  pub search : String → String → Option String
  pub groups : String → String → List String
  pub sub : String → String → String → String
  pub strptime : String → String → Option ℕ
  pub fromisoformat : String → Option ℕ
  pub natural_of : String → ℕ
  pub int_of : String → Bool × ℕ
  pub isoformat : ℕ → String
  pub str_of : ℕ → String
  pub title : String → String
  pub Decimal : Type 0
  pub decimal_of : String → Option Decimal
  pub times : Decimal → ℕ → Decimal
  pub is_negative : Decimal → Bool
  pub integral_of : Decimal → ℕ

-- `if not value: return None`
abbrev pub given {ℓ} : {A : Type ℓ} → Option String → (String → Option A) → Option A
given none f = none
given (some value) f = if value == "" then none else f value

abbrev pub microseconds_a_day : ℕ
microseconds_a_day = 86400000000

abbrev pub future_tolerance : ℕ
future_tolerance = microseconds_a_day

abbrev pub max_backdate : ℕ
max_backdate = 3650 * microseconds_a_day

abbrev pub max_loss_minor : ℕ
max_loss_minor = 1000000000000000

abbrev pub date_formats : List String
date_formats =
    "%Y-%m-%d" ∷ "%d/%m/%Y" ∷ "%d-%m-%Y" ∷ "%d.%m.%Y" ∷ "%d %B %Y" ∷ "%d %b %Y" ∷ "%B %d %Y"
    ∷ "%b %d %Y" ∷ "%Y/%m/%d" ∷ []

-- `_CURRENCY_SYMBOLS`, in its order.
abbrev pub currency_symbols : List (String × String)
currency_symbols =
    ("£", "GBP")
    ∷ ("$", "USD")
    ∷ ("€", "EUR")
    ∷ ("s$", "SGD")
    ∷ ("sgd", "SGD")
    ∷ ("gbp", "GBP")
    ∷ ("usd", "USD")
    ∷ ("eur", "EUR")
    ∷ []

abbrev pub supported_currencies : List String
supported_currencies = "GBP" ∷ "USD" ∷ "EUR" ∷ "SGD" ∷ []

abbrev pub true_words : List String
true_words = "yes" ∷ "true" ∷ "y" ∷ "confirmed" ∷ "present" ∷ "1" ∷ []

abbrev pub false_words : List String
false_words = "no" ∷ "false" ∷ "n" ∷ "none" ∷ "absent" ∷ "0" ∷ "nil" ∷ []

abbrev pub party_roles : List String
party_roles =
    "claimant" ∷ "insured" ∷ "broker" ∷ "third_party" ∷ "witness" ∷ "authority" ∷ "other" ∷ []

abbrev pub party_role_aliases : List (String × String)
party_role_aliases =
    ("policyholder", "insured")
    ∷ ("insured_party", "insured")
    ∷ ("agent", "broker")
    ∷ ("intermediary", "broker")
    ∷ ("third_party_claimant", "third_party")
    ∷ ("counterparty", "third_party")
    ∷ ("police", "authority")
    ∷ ("fire_service", "authority")
    ∷ ("regulator", "authority")
    ∷ ("loss_adjuster", "other")
    ∷ []

abbrev pub line_aliases : List (String × LineOfBusiness)
line_aliases =
    ("workers_comp", LineOfBusiness.workers_compensation)
    ∷ ("workers_compensation", LineOfBusiness.workers_compensation)
    ∷ ("employers_liability", LineOfBusiness.liability)
    ∷ ("general_liability", LineOfBusiness.liability)
    ∷ ("commercial_property", LineOfBusiness.property)
    ∷ ("motor_fleet", LineOfBusiness.motor)
    ∷ ("auto", LineOfBusiness.motor)
    ∷ ("cargo", LineOfBusiness.marine)
    ∷ ("technology", LineOfBusiness.cyber)
    ∷ []

-- The first format that reads the text.
abbrev pub first_date : (String → Option ℕ) → List String → Option ℕ → Option ℕ
first_date read [] last = last
first_date read (format ∷ rest) last = or_else (read format) (first_date read rest last)

-- Hour and minute of a match, or midnight.
abbrev pub clock_time : (String → ℕ) → List String → ℕ
clock_time natural (hour ∷ minute ∷ rest) = (natural hour * 60 + natural minute) * 60000000
clock_time natural _ = 0

-- A time that is not outside the plausible window.
abbrev pub plausible : ℕ → ℕ → Option ℕ
plausible now stamp =
    if ltb (now + future_tolerance) stamp || ltb (stamp + max_backdate) now
    then none
    else some stamp

-- `count if 0 <= count <= maximum else None`
abbrev pub within : ℕ → Bool × ℕ → Option ℕ
within maximum (true, size) = if leb size 0 then some 0 else none
within maximum (false, size) = if leb size maximum then some size else none

abbrev pub symbol_in : (String → Bool) → List (String × String) → Option String
symbol_in test [] = none
symbol_in test ((token, code) ∷ rest) = if test token then some code else symbol_in test rest

module _ (py : Python) where
  unfoldable pub parse_date : Option String → Option ℕ
  parse_date value = given value (λ v.
      let text = py.sub "\\s+" " " (py.replace "," " " (py.strip v)) in
      let plain = py.sub "(\\d)(st|nd|rd|th)\\b" "\\1" text in
      first_date (py.strptime plain) date_formats
        (py.fromisoformat (py.replace "Z" "+00:00" plain)))

  abbrev pub stated_time : Option String → ℕ
  stated_time none = 0
  stated_time (some value) =
      if value == ""
      then 0
      else clock_time py.natural_of (py.groups "\\b([01]?\\d|2[0-3])[:.]([0-5]\\d)\\b" value)

  abbrev pub stamp_of : ℕ → Option String → Option ℕ → Option ℕ
  stamp_of now time none = none
  stamp_of now time (some day) = plausible now (day * microseconds_a_day + stated_time time)

  unfoldable pub parse_datetime : ℕ → Option String → Option String → Option ℕ
  unfolding parse_date
  parse_datetime now date time = stamp_of now time (parse_date date)

  unfoldable pub parse_currency : Option String → String → String
  parse_currency none fallback = fallback
  parse_currency (some value) fallback =
      if value == ""
      then fallback
      else let text = py.lower (py.strip value) in
        let code = py.upper (py.strip value) in
        some_or (symbol_in (py.contains text) currency_symbols)
          (if code ∈? supported_currencies then code else fallback)

  abbrev pub multiplier_of : String → ℕ
  multiplier_of text = elim (py.search "\\d\\s*(m|mn|million)\\b" text) [
    | some _ ↦ 1000000
    | none ↦ elim (py.search "\\d\\s*(k|thousand)\\b" text) [ some _ ↦ 1000 | none ↦ 1 ]
  ]

  abbrev pub minor_of : Option py.Decimal → ℕ → Option ℕ
  minor_of none multiplier = none
  minor_of (some read) multiplier =
      let amount = py.times read multiplier in
      let minor = py.integral_of (py.times amount 100) in
      if py.is_negative amount then none else if leb minor max_loss_minor then some minor else none

  unfoldable pub parse_money_minor : Option String → Option ℕ
  parse_money_minor value = given value (λ v.
      let text = py.lower (py.strip v) in
      elim (py.search "(-?[\\d][\\d,\\s]*(?:\\.\\d{1,2})?)" text) [
        | none ↦ none
        | some figure ↦
            minor_of (py.decimal_of (py.replace " " "" (py.replace "," "" figure)))
              (multiplier_of text)
      ])

  unfoldable pub parse_count : ℕ → Option String → Option ℕ
  parse_count maximum value = given value (λ v.
      let text = py.lower (py.strip v) in
      if text ∈? false_words || py.contains (py.prefix 4 (py.padded text)) "no "
      then some 0
      else elim (py.search "-?\\d+" (py.replace "," "" text)) [
        | none ↦ none
        | some figure ↦ within maximum (py.int_of figure)
      ])

  unfoldable pub parse_bool : Option String → Option Bool
  parse_bool value = given value (λ v.
      let text = py.lower (py.strip v) in
      if text ∈? true_words then some true else if text ∈? false_words then some false else none)

  unfoldable pub parse_email : Option String → Option String
  parse_email value = given value (λ v. elim (py.search "[\\w.+-]+@[\\w-]+\\.[\\w.-]+" v) [
    | none ↦ none
    | some address ↦ some (py.lower address)
  ])

  unfoldable pub parse_phone : Option String → Option String
  parse_phone value = given value (λ v. elim (py.search "[+()\\d][\\d\\s()+.-]{6,}\\d" v) [
    | none ↦ none
    | some found ↦
        let cleaned = py.sub "[^\\d+]" "" found in
        let digits = py.len (py.lstrip_of "+" cleaned) in
        if leb 7 digits && leb digits 15 then some cleaned else none
  ])

  -- A key of an alias table: runs of other characters than letters become `_`.
  abbrev pub key_of : String → String
  key_of value = py.strip_of "_" (py.sub "[^a-z]+" "_" (py.lower (py.strip value)))

  unfoldable pub parse_line_of_business : Option String → Option LineOfBusiness
  parse_line_of_business value =
      given value (λ v. or_else (get_path (key_of v) line_aliases) (line_of_business_of (key_of v)))

  abbrev pub known_role : String → String
  known_role key = if key ∈? party_roles then key else "other"

  unfoldable pub parse_party_role : Option String → String
  parse_party_role none = "other"
  parse_party_role (some value) =
      if value == ""
      then "other"
      else known_role (some_or (get_path (key_of value) party_role_aliases) (key_of value))

  unfoldable pub clip : ℕ → Option String → Option String
  clip limit none = none
  clip limit (some value) =
      let trimmed = py.strip value in if trimmed == "" then none else some (py.prefix limit trimmed)
