-- ===== src/Assessment/Coverage.antt =====
-- `assess_coverage` of `app/domain/assessment.py`: the policy read against the loss.
pub mod Verdict
use claims_workbench_be.Common.{
  ℕ, ◌*◌, Bool, true, false, not, ◌&&◌, ◌||◌, Option, none, some, some_or, List, [], ◌∷◌, ◌++◌, map,
  any, all, find_first, is_empty, is_some, String, string_eq, BEq, enum_eq, ◌==◌, ◌∈?◌,
  if◌then◌else◌, ltb, leb,
}
use claims_workbench_be.Enums.Assessment.{CoverageIndicator}
use claims_workbench_be.Model.Case.{Attribute, FnolCase, as_text, as_number, as_stamp, holds_text}
use claims_workbench_be.Model.Claims.{Policy}
use claims_workbench_be.Signals.{normalise, filled}
use claims_workbench_be.Matching.{PythonWords, tokens, meet}
use claims_workbench_be.PolicyMatch.{in_force_on}

pub data CheckState : Type 0 where
  pass attention fail unknown : CheckState

-- The label and the detail of a check are left out.
pub record CoverageCheck : Type 0 where
  pub key : String
  pub state : CheckState

-- The reasoning is left out, and the confidence is in hundredths.
pub record CoverageResult : Type 0 where
  pub indicator : CoverageIndicator
  pub confidence : ℕ
  pub checks : List CoverageCheck

abbrev pub check : String → CheckState → CoverageCheck
check key state = record { key = key; state = state }

abbrev pub in_force_state : Option Bool → CheckState
in_force_state none = CheckState.unknown
in_force_state (some true) = CheckState.pass
in_force_state (some false) = CheckState.fail

-- `_limit_check`
unfoldable pub limit_state : Option ℕ → Option ℕ → CheckState
limit_state none limit = CheckState.unknown
limit_state (some estimate) none = CheckState.unknown
limit_state (some estimate) (some limit) =
    if leb limit 0
    then CheckState.unknown
    else if ltb limit estimate
    then CheckState.fail
    else if ltb (3 * limit) (4 * estimate)
    then CheckState.attention
    else CheckState.pass

abbrev pub needs_attention : CheckState → Bool
needs_attention CheckState.attention = true
needs_attention _ = false

abbrev pub is_attention : CoverageCheck → Bool
is_attention c = needs_attention c.state

abbrev pub result : CoverageIndicator → ℕ → List CoverageCheck → CoverageResult
result indicator confidence checks = record {
  indicator = indicator;
  confidence = confidence;
  checks = checks;
}

-- The last tests of `_coverage_verdict`.
abbrev pub open_verdict : List CoverageCheck → Bool → CoverageResult
open_verdict checks policy_confirmed =
    if any is_attention checks || not policy_confirmed
    then result CoverageIndicator.review_required 60 checks
    else result CoverageIndicator.likely_covered 75 checks

-- `_coverage_verdict`, over whether the policy was in force and the state of the peril.
unfoldable pub coverage_verdict :
    List CoverageCheck → Bool → Option Bool → CheckState → CoverageResult
coverage_verdict checks confirmed (some false) peril =
    result CoverageIndicator.possible_exclusion 85 checks
coverage_verdict checks confirmed in_force CheckState.fail =
    result CoverageIndicator.possible_exclusion 70 checks
coverage_verdict checks confirmed none peril =
    result CoverageIndicator.insufficient_information 60 checks
coverage_verdict checks confirmed (some true) CheckState.unknown =
    result CoverageIndicator.insufficient_information 60 checks
coverage_verdict checks confirmed (some true) CheckState.pass = open_verdict checks confirmed
coverage_verdict checks confirmed (some true) CheckState.attention = open_verdict checks confirmed

abbrev pub deductible_check : Option ℕ → List CoverageCheck
deductible_check none = []
deductible_check (some n) = if ltb 0 n then check "deductible" CheckState.pass ∷ [] else []

module _ (py : PythonWords) where
  -- `_mentions`
  abbrev pub mentions : List String → String → Bool
  mentions haystack phrase =
      let words = tokens py false (some phrase) in
      not (is_empty words) && all (λ w. w ∈? haystack) words

  abbrev pub haystack : FnolCase → String
  haystack c = normalise py.strings (
      py.strings.join (
        filled (
          as_text (c.column Attribute.cause_of_loss)
          ∷ c.loss_type
          ∷ as_text (c.column Attribute.loss_description)
          ∷ [])))

  -- The first phrase that is mentioned, unless it is empty.
  abbrev pub hit : List String → List String → Bool
  hit words phrases = holds_text (find_first (mentions words) (map (normalise py.strings) phrases))

  -- `_peril_check`
  unfoldable pub peril_state : FnolCase → Policy → CheckState
  peril_state c p =
      let words = tokens py false (some (haystack c)) in
      if haystack c == ""
      then CheckState.unknown
      else if hit words p.exclusions
      then CheckState.fail
      else if hit words p.perils_covered
      then CheckState.pass
      else if is_empty p.perils_covered
      then CheckState.unknown
      else CheckState.attention

  abbrev pub shares_words : List String → Option String → Bool
  shares_words words place = holds_text place && not (is_empty (meet (tokens py true place) words))

  -- `_location_check`
  unfoldable pub location_state : FnolCase → Policy → CheckState
  location_state c p =
      let place = as_text (c.column Attribute.loss_location) in
      let candidates = p.primary_location ∷ p.region ∷ p.country ∷ map (λ a. some a) p.addresses in
      if not (holds_text place)
      then CheckState.unknown
      else if any (shares_words (tokens py true place)) candidates
      then CheckState.pass
      else CheckState.attention

  -- `(policy.status or "active").lower() == "active"`
  abbrev pub status_state : Policy → CheckState
  status_state p =
      if py.strings.lower (if p.status == "" then "active" else p.status) == "active"
      then CheckState.pass
      else CheckState.attention

  abbrev pub checks_of : FnolCase → Policy → List CoverageCheck
  checks_of c p =
      check "in_force" (in_force_state (in_force_on (as_stamp (c.column Attribute.date_of_loss)) p))
      ∷ check "policy_status" (status_state p)
      ∷ check "peril" (peril_state c p)
      ∷ check "limit"
          (limit_state (as_number (c.column Attribute.estimated_loss_minor)) p.limit_amount_minor)
      ∷ (deductible_check p.deductible_amount_minor ++ (check "location" (location_state c p) ∷ []))

  unfoldable pub assess_coverage : FnolCase → Option Policy → Bool → CoverageResult
  unfolding coverage_verdict peril_state location_state limit_state
  assess_coverage c none policy_confirmed =
      result CoverageIndicator.policy_not_located 90 (check "policy" CheckState.fail ∷ [])
  assess_coverage c (some p) policy_confirmed =
      coverage_verdict (checks_of c p) policy_confirmed
        (in_force_on (as_stamp (c.column Attribute.date_of_loss)) p) (peril_state c p)
