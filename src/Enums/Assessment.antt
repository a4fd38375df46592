-- ===== src/Enums/Assessment.antt =====
-- The vocabulary of the assessments: string enumerations of `app/domain/enums.py`.
-- A column that holds such a string is typed by the enumeration; members are compared by their place.
use claims_workbench_be.Common.{
  ℕ, ◌≡◌, refl, List, [], ◌∷◌, get_or, BEq, enum_eq, String, string_eq, ◌==◌, Option, some,
  find_first,
}

pub data LineOfBusiness : Type 0 where
  property motor marine liability casualty workers_compensation cyber construction : LineOfBusiness
  engineering specialty unknown : LineOfBusiness

abbrev pub line_of_businesses : List LineOfBusiness
line_of_businesses =
    LineOfBusiness.property ∷ LineOfBusiness.motor ∷ LineOfBusiness.marine
    ∷ LineOfBusiness.liability ∷ LineOfBusiness.casualty ∷ LineOfBusiness.workers_compensation
    ∷ LineOfBusiness.cyber ∷ LineOfBusiness.construction ∷ LineOfBusiness.engineering
    ∷ LineOfBusiness.specialty ∷ LineOfBusiness.unknown ∷ []

abbrev pub line_of_business_rank : LineOfBusiness → ℕ
line_of_business_rank LineOfBusiness.property = 0
line_of_business_rank LineOfBusiness.motor = 1
line_of_business_rank LineOfBusiness.marine = 2
line_of_business_rank LineOfBusiness.liability = 3
line_of_business_rank LineOfBusiness.casualty = 4
line_of_business_rank LineOfBusiness.workers_compensation = 5
line_of_business_rank LineOfBusiness.cyber = 6
line_of_business_rank LineOfBusiness.construction = 7
line_of_business_rank LineOfBusiness.engineering = 8
line_of_business_rank LineOfBusiness.specialty = 9
line_of_business_rank LineOfBusiness.unknown = 10

pub get_or-line_of_business_rank :
    (a : LineOfBusiness)
    → get_or line_of_businesses (line_of_business_rank a) LineOfBusiness.property ≡ a
get_or-line_of_business_rank LineOfBusiness.property = refl
get_or-line_of_business_rank _ = refl

instance abbrev pub line_of_business_eq : BEq LineOfBusiness
line_of_business_eq =
    enum_eq line_of_business_rank line_of_businesses LineOfBusiness.property
      get_or-line_of_business_rank

pub data Severity : Type 0 where
  low medium high critical : Severity

abbrev pub severities : List Severity
severities = Severity.low ∷ Severity.medium ∷ Severity.high ∷ Severity.critical ∷ []

abbrev pub severity_rank : Severity → ℕ
severity_rank Severity.low = 0
severity_rank Severity.medium = 1
severity_rank Severity.high = 2
severity_rank Severity.critical = 3

pub get_or-severity_rank : (a : Severity) → get_or severities (severity_rank a) Severity.low ≡ a
get_or-severity_rank Severity.low = refl
get_or-severity_rank _ = refl

instance abbrev pub severity_eq : BEq Severity
severity_eq = enum_eq severity_rank severities Severity.low get_or-severity_rank

pub data RiskLevel : Type 0 where
  low medium high : RiskLevel

abbrev pub risk_levels : List RiskLevel
risk_levels = RiskLevel.low ∷ RiskLevel.medium ∷ RiskLevel.high ∷ []

abbrev pub risk_level_rank : RiskLevel → ℕ
risk_level_rank RiskLevel.low = 0
risk_level_rank RiskLevel.medium = 1
risk_level_rank RiskLevel.high = 2

pub get_or-risk_level_rank :
    (a : RiskLevel) → get_or risk_levels (risk_level_rank a) RiskLevel.low ≡ a
get_or-risk_level_rank RiskLevel.low = refl
get_or-risk_level_rank _ = refl

instance abbrev pub risk_level_eq : BEq RiskLevel
risk_level_eq = enum_eq risk_level_rank risk_levels RiskLevel.low get_or-risk_level_rank

pub data CoverageIndicator : Type 0 where
  likely_covered review_required possible_exclusion insufficient_information : CoverageIndicator
  policy_not_located : CoverageIndicator

abbrev pub coverage_indicators : List CoverageIndicator
coverage_indicators =
    CoverageIndicator.likely_covered ∷ CoverageIndicator.review_required
    ∷ CoverageIndicator.possible_exclusion ∷ CoverageIndicator.insufficient_information
    ∷ CoverageIndicator.policy_not_located ∷ []

abbrev pub coverage_indicator_rank : CoverageIndicator → ℕ
coverage_indicator_rank CoverageIndicator.likely_covered = 0
coverage_indicator_rank CoverageIndicator.review_required = 1
coverage_indicator_rank CoverageIndicator.possible_exclusion = 2
coverage_indicator_rank CoverageIndicator.insufficient_information = 3
coverage_indicator_rank CoverageIndicator.policy_not_located = 4

pub get_or-coverage_indicator_rank :
    (a : CoverageIndicator)
    → get_or coverage_indicators (coverage_indicator_rank a) CoverageIndicator.likely_covered ≡ a
get_or-coverage_indicator_rank CoverageIndicator.likely_covered = refl
get_or-coverage_indicator_rank _ = refl

instance abbrev pub coverage_indicator_eq : BEq CoverageIndicator
coverage_indicator_eq =
    enum_eq coverage_indicator_rank coverage_indicators CoverageIndicator.likely_covered
      get_or-coverage_indicator_rank

pub data PolicyMatchStrength : Type 0 where
  exact high possible none : PolicyMatchStrength

abbrev pub policy_match_strengths : List PolicyMatchStrength
policy_match_strengths =
    PolicyMatchStrength.exact ∷ PolicyMatchStrength.high ∷ PolicyMatchStrength.possible
    ∷ PolicyMatchStrength.none ∷ []

abbrev pub policy_match_strength_rank : PolicyMatchStrength → ℕ
policy_match_strength_rank PolicyMatchStrength.exact = 0
policy_match_strength_rank PolicyMatchStrength.high = 1
policy_match_strength_rank PolicyMatchStrength.possible = 2
policy_match_strength_rank PolicyMatchStrength.none = 3

pub get_or-policy_match_strength_rank :
    (a : PolicyMatchStrength)
    → get_or policy_match_strengths (policy_match_strength_rank a) PolicyMatchStrength.exact ≡ a
get_or-policy_match_strength_rank PolicyMatchStrength.exact = refl
get_or-policy_match_strength_rank _ = refl

instance abbrev pub policy_match_strength_eq : BEq PolicyMatchStrength
policy_match_strength_eq =
    enum_eq policy_match_strength_rank policy_match_strengths PolicyMatchStrength.exact
      get_or-policy_match_strength_rank

abbrev pub line_of_business_value : LineOfBusiness → String
line_of_business_value LineOfBusiness.property = "property"
line_of_business_value LineOfBusiness.motor = "motor"
line_of_business_value LineOfBusiness.marine = "marine"
line_of_business_value LineOfBusiness.liability = "liability"
line_of_business_value LineOfBusiness.casualty = "casualty"
line_of_business_value LineOfBusiness.workers_compensation = "workers_compensation"
line_of_business_value LineOfBusiness.cyber = "cyber"
line_of_business_value LineOfBusiness.construction = "construction"
line_of_business_value LineOfBusiness.engineering = "engineering"
line_of_business_value LineOfBusiness.specialty = "specialty"
line_of_business_value LineOfBusiness.unknown = "unknown"

-- `LineOfBusiness(value)`, with `none` for its `ValueError`.
pub line_of_business_of : String → Option LineOfBusiness
line_of_business_of s =
    find_first (λ (a : LineOfBusiness). line_of_business_value a == s) line_of_businesses

pub line_of_business_of-value :
    (a : LineOfBusiness) → line_of_business_of (line_of_business_value a) ≡ some a
unfolding line_of_business_of
line_of_business_of-value LineOfBusiness.property = refl
line_of_business_of-value _ = refl

abbrev pub severity_value : Severity → String
severity_value Severity.low = "low"
severity_value Severity.medium = "medium"
severity_value Severity.high = "high"
severity_value Severity.critical = "critical"

-- `Severity(value)`, with `none` for its `ValueError`.
pub severity_of : String → Option Severity
severity_of s = find_first (λ (a : Severity). severity_value a == s) severities

pub severity_of-value : (a : Severity) → severity_of (severity_value a) ≡ some a
unfolding severity_of
severity_of-value Severity.low = refl
severity_of-value _ = refl

abbrev pub risk_level_value : RiskLevel → String
risk_level_value RiskLevel.low = "low"
risk_level_value RiskLevel.medium = "medium"
risk_level_value RiskLevel.high = "high"

-- `RiskLevel(value)`, with `none` for its `ValueError`.
pub risk_level_of : String → Option RiskLevel
risk_level_of s = find_first (λ (a : RiskLevel). risk_level_value a == s) risk_levels

pub risk_level_of-value : (a : RiskLevel) → risk_level_of (risk_level_value a) ≡ some a
unfolding risk_level_of
risk_level_of-value RiskLevel.low = refl
risk_level_of-value _ = refl
