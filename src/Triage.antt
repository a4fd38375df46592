-- ===== src/Triage.antt =====
-- The triage rules of `app/domain/triage.py`, over the routes of `app/domain/rules.py`. A factor
-- keeps its name and its weight in tenths; its sentence is left out.
pub mod Classify
pub mod Routing
pub mod Handlers
pub mod Best
use claims_workbench_be.Common.{
  ℕ, ◌+◌, ◌*◌, Bool, true, false, not, ◌&&◌, ◌||◌, Option, none, some, some_or, List, [], ◌∷◌, ◌++◌,
  String, ◌==◌, ◌∈?◌, any, if◌then◌else◌, ltb, leb,
}
use claims_workbench_be.Enums.Assessment.{
  LineOfBusiness, line_of_business_eq, Severity, severity_eq, RiskLevel, risk_level_eq,
}
use claims_workbench_be.Enums.Claims.{TriageCategory, triage_category_eq, Priority}
use claims_workbench_be.Signals.{PythonStrings, has_litigation_signal, has_serious_injury_signal}

pub record RouteDefinition : Type 0 where
  pub key : String
  pub label : String
  pub team : String
  pub required_skill : Option String

abbrev pub route : String → String → String → Option String → RouteDefinition
route key label team skill = record {
  key = key;
  label = label;
  team = team;
  required_skill = skill;
}

abbrev pub siu : RouteDefinition
siu = route "siu" "Special Investigations Unit" "SIU" (some "fraud_investigation")

abbrev pub litigation_desk : RouteDefinition
litigation_desk = route "litigation" "Litigation & Large Loss" "Litigation" (some "litigation")

abbrev pub major_loss_desk : RouteDefinition
major_loss_desk = route "major_loss" "Major Loss Team" "Major Loss" (some "major_loss")

abbrev pub cat_desk : RouteDefinition
cat_desk = route "cat" "Catastrophe Response Unit" "CAT Response" (some "catastrophe")

abbrev pub specialist_desk : RouteDefinition
specialist_desk = route "specialist" "Specialist Claims" "Specialist" none

abbrev pub complex_desk : RouteDefinition
complex_desk = route "complex" "Complex Claims" "Complex" none

abbrev pub fast_track : RouteDefinition
fast_track = route "fast_track" "Fast Track" "Fast Track" none

-- Every set of `ROUTES` has one member.
abbrev pub routes : List (TriageCategory × RouteDefinition)
routes =
    (TriageCategory.fraud_review, siu)
    ∷ (TriageCategory.litigation_risk, litigation_desk)
    ∷ (TriageCategory.major_loss, major_loss_desk)
    ∷ (TriageCategory.cat_claim, cat_desk)
    ∷ (TriageCategory.specialist_required, specialist_desk)
    ∷ (TriageCategory.complex, complex_desk)
    ∷ (TriageCategory.simple, fast_track)
    ∷ []

abbrev pub specialist_lines : List LineOfBusiness
specialist_lines =
    LineOfBusiness.marine ∷ LineOfBusiness.cyber ∷ LineOfBusiness.engineering
    ∷ LineOfBusiness.specialty ∷ LineOfBusiness.construction ∷ []

pub record TriageFactor : Type 0 where
  pub factor : String
  pub weight : ℕ

-- The confidence is in hundredths.
pub record TriageResult : Type 0 where
  pub categories : List TriageCategory
  pub route : RouteDefinition
  pub priority : Priority
  pub confidence : ℕ
  pub factors : List TriageFactor

-- The keyword arguments of `triage`.
pub record TriageInput : Type 0 where
  pub severity : Option Severity
  pub estimated_loss_minor : Option ℕ
  pub line_of_business : Option LineOfBusiness
  pub fraud_risk : Option RiskLevel
  pub cat_matched : Bool
  pub injuries : Option ℕ
  pub fatalities : Option ℕ
  pub business_interruption : Bool
  pub potential_litigation : Bool
  pub text : String

-- What the function has appended so far.
pub record Tally : Type 0 where
  pub categories : List TriageCategory
  pub factors : List TriageFactor

abbrev pub factor : String → ℕ → Tally → Tally
factor name weight t = record t {
  factors = t.factors ++ (record { factor = name; weight = weight } ∷ []);
}

abbrev pub classed : TriageCategory → Tally → Tally
classed category t = record t { categories = t.categories ++ (category ∷ []) }

abbrev pub risk_is : Option RiskLevel → List RiskLevel → Bool
risk_is none levels = false
risk_is (some risk) levels = risk ∈? levels

abbrev pub severity_is : Option Severity → Severity → Bool
severity_is none s = false
severity_is (some t) s = t == s

abbrev pub line_is : Option LineOfBusiness → List LineOfBusiness → Bool
line_is none lines = false
line_is (some line) lines = line ∈? lines

-- `value and value >= threshold`, and the truth value of an optional count.
abbrev pub reaches : Option ℕ → ℕ → Bool
reaches value threshold = ltb 0 (some_or value 0) && leb threshold (some_or value 0)

abbrev pub positive : Option ℕ → Bool
positive value = ltb 0 (some_or value 0)

-- The branches, each on its test.
abbrev pub fraud_step : Bool → Bool → Tally → Tally
fraud_step false is_high t = t
fraud_step true is_high t =
    factor "fraud_indicators" (if is_high then 9 else 6) (classed TriageCategory.fraud_review t)

abbrev pub litigation_step : Bool → Tally → Tally
litigation_step false t = t
litigation_step true t = factor "litigation" 8 (classed TriageCategory.litigation_risk t)

abbrev pub exposure_step : Bool → Bool → Tally → Tally
exposure_step true is_critical t = factor "exposure" 9 (classed TriageCategory.major_loss t)
exposure_step false true t = factor "severity" 8 (classed TriageCategory.major_loss t)
exposure_step false false t = t

abbrev pub unless_major : Bool → Tally → Tally
unless_major true t = t
unless_major false t = classed TriageCategory.major_loss t

abbrev pub injury_step : Bool → Tally → Tally
injury_step false t = t
injury_step true t =
    factor "serious_injury" 10 (unless_major (TriageCategory.major_loss ∈? t.categories) t)

abbrev pub cat_step : Bool → Tally → Tally
cat_step false t = t
cat_step true t = factor "catastrophe" 7 (classed TriageCategory.cat_claim t)

abbrev pub specialist_step : Bool → Tally → Tally
specialist_step false t = t
specialist_step true t = factor "specialist_line" 6 (classed TriageCategory.specialist_required t)

-- Only when nothing else was found.
abbrev pub default_for : List TriageCategory → Bool → Tally → Tally
default_for [] true t = factor "complexity" 5 (classed TriageCategory.complex t)
default_for [] false t = factor "straightforward" 5 (classed TriageCategory.simple t)
default_for (_ ∷ _) is_complex t = t

abbrev pub default_step : Bool → Tally → Tally
default_step is_complex t = default_for t.categories is_complex t
