-- ===== src/Triage/Handlers.antt =====
-- The choice of a handler: `recommend_assignment` and `_score_handler` of `app/domain/triage.py`. A
-- weight and the value of a dimension are in tenths; the score, in ten-thousandths, is rounded from
-- the exact fraction, where the code rounds a float. Reasons, alternatives and the confidence of the
-- recommendation are left out.
use claims_workbench_be.Common.{
  ℕ, suc, ◌+◌, ◌*◌, ◌-◌, ◌/◌, ◌%◌, Bool, true, false, not, Option, none, some, List, [], ◌∷◌,
  String, string_eq, ◌==◌, ◌∈?◌, map, is_empty, keep, if◌then◌else◌, ltb, leb, ◌++◌,
}
use claims_workbench_be.Enums.Assessment.{
  LineOfBusiness, line_of_business_value, Severity, severity_of, severity_rank,
}
use claims_workbench_be.Enums.Claims.{AssignmentStrategy}
use claims_workbench_be.Model.Case.{holds_text}
use claims_workbench_be.Model.Claims.{Handler}
use claims_workbench_be.Triage.{RouteDefinition}

-- Why a handler is not eligible.
pub data HandlerBlocker : Type 0 where
  lacks_skill below_severity at_capacity : HandlerBlocker

pub record HandlerScore : Type 0 where
  pub handler_id : ℕ
  pub name : String
  pub team : String
  pub score : ℕ
  pub blockers : List HandlerBlocker

-- `ASSIGNMENT_WEIGHTS`
abbrev pub skill_weight : ℕ
skill_weight = 30

abbrev pub team_weight : ℕ
team_weight = 20

abbrev pub line_weight : ℕ
line_weight = 15

abbrev pub country_weight : ℕ
country_weight = 10

abbrev pub severity_weight : ℕ
severity_weight = 25

abbrev pub capacity_weight : ℕ
capacity_weight = 15

-- A value, times ten, and its weight.
abbrev pub Part : Type 0
Part = ℕ × ℕ

abbrev pub valued : List Part → ℕ
valued [] = 0
valued ((value, weight) ∷ parts) = value * weight + valued parts

abbrev pub weighed : List Part → ℕ
weighed [] = 0
weighed ((value, weight) ∷ parts) = weight + weighed parts

-- `n / d` to the nearest, a half to the even.
abbrev pub rounded : ℕ → ℕ → ℕ
rounded n d =
    let q = n / d in
    let r = n % d in if ltb (2 * r) d then q else if ltb d (2 * r) then suc q else q + q % 2

-- The truth value of an optional text.
abbrev pub nonempty : Option String → Option String
nonempty value = if holds_text value then value else none

abbrev pub has_skill : List String → Option String → Bool
has_skill skills none = true
has_skill skills (some skill) = skill ∈? skills

abbrev pub skill_part : List String → Option String → List Part
skill_part skills none = []
skill_part skills (some skill) = ((if skill ∈? skills then 10 else 0), skill_weight) ∷ []

abbrev pub line_part : List String → Option LineOfBusiness → List Part
line_part lines none = []
line_part lines (some line) =
    if is_empty lines
    then []
    else ((if line_of_business_value line ∈? lines then 10 else 1), line_weight) ∷ []

abbrev pub country_part : (String → String) → List String → Option String → List Part
country_part lower countries none = []
country_part lower countries (some country) =
    if is_empty countries
    then []
    else ((if lower country ∈? countries then 10 else 2), country_weight) ∷ []

-- An authority that is no severity counts as medium.
abbrev pub authority : String → ℕ
authority value = elim (severity_of value) [ none ↦ 1 | some s ↦ severity_rank s ]

abbrev pub may_handle : ℕ → Option Severity → Bool
may_handle rank none = true
may_handle rank (some severity) = leb (severity_rank severity) rank

abbrev pub severity_part : ℕ → Option Severity → List Part
severity_part rank none = []
severity_part rank (some severity) =
    ((if leb (severity_rank severity) rank then 10 else 0), severity_weight) ∷ []

abbrev pub capacity_of : Handler → ℕ
capacity_of h = if leb h.capacity 1 then 1 else h.capacity

abbrev pub blocker : Bool → HandlerBlocker → List HandlerBlocker
blocker true reason = reason ∷ []
blocker false reason = []

module _ (lower : String → String) (route : RouteDefinition) (severity : Option Severity)
    (line_of_business : Option LineOfBusiness) (country : Option String) where
  abbrev pub fixed_parts : Handler → List Part
  fixed_parts h =
      skill_part (map lower h.skills) (nonempty route.required_skill)
      ++ (((if h.team == route.team then 10 else 2), team_weight)
          ∷ (line_part (map lower h.lines_of_business) line_of_business
              ++ (country_part lower (map lower h.countries) (nonempty country)
                  ++ severity_part (authority h.max_severity) severity)))

  -- The fraction has the handler's capacity in its denominator.
  unfoldable pub score_of : Handler → ℕ
  score_of h =
      let parts = fixed_parts h in
      let capacity = capacity_of h in
      rounded
        (10000 * (capacity * valued parts + 10 * (capacity - h.open_claims) * capacity_weight))
        (10 * capacity * (weighed parts + capacity_weight))

  unfoldable pub score_handler : Handler → HandlerScore
  unfolding score_of
  score_handler h = record {
    handler_id = h.id;
    name = h.full_name;
    team = h.team;
    score = score_of h;
    blockers =
        blocker (not (has_skill (map lower h.skills) (nonempty route.required_skill)))
          HandlerBlocker.lacks_skill
        ++ (blocker (not (may_handle (authority h.max_severity) severity))
              HandlerBlocker.below_severity
            ++ blocker (leb (capacity_of h) h.open_claims) HandlerBlocker.at_capacity);
  }

-- A stable sort, the highest score first.
abbrev pub insert : HandlerScore → List HandlerScore → List HandlerScore
insert x [] = x ∷ []
insert x (y ∷ ys) = if leb y.score x.score then x ∷ y ∷ ys else y ∷ insert x ys

unfoldable pub ranked : List HandlerScore → List HandlerScore
ranked [] = []
ranked (x ∷ xs) = insert x (ranked xs)

abbrev pub is_eligible : HandlerScore → Bool
is_eligible candidate = is_empty candidate.blockers

pub record AssignmentRecommendation : Type 0 where
  pub handler : Option HandlerScore
  pub strategy : AssignmentStrategy
  pub team : String

abbrev pub best_of : List HandlerScore → Option HandlerScore
best_of [] = none
best_of (x ∷ xs) = some x

abbrev pub strategy_of : Option HandlerScore → Option String → AssignmentStrategy
strategy_of none skill = AssignmentStrategy.queue
strategy_of (some h) skill =
    if holds_text skill then AssignmentStrategy.skill_based else AssignmentStrategy.workload

unfoldable pub recommend_assignment :
    (String → String)
    → RouteDefinition
    → Option Severity
    → Option LineOfBusiness
    → Option String
    → List Handler
    → AssignmentRecommendation
unfolding score_handler ranked
recommend_assignment lower route severity line country handlers =
    let scored = map (score_handler lower route severity line country) handlers in
    let best = best_of (ranked (keep is_eligible scored)) in
    record { handler = best; strategy = strategy_of best route.required_skill; team = route.team }
