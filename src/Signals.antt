-- ===== src/Signals.antt =====
-- The phrases that a triage reads in the text of a case: `normalise` of `app/domain/matching.py`,
-- `text_signals` and the two signal tests of `app/domain/assessment.py`, over the phrases of
-- `app/domain/rules.py`. Python's text functions are a parameter.
use claims_workbench_be.Common.{
  Bool, Option, none, some, List, [], ◌∷◌, String, any, if◌then◌else◌, ◌==◌, string_eq,
}
use claims_workbench_be.Model.Case.{
  FnolCase, as_text, loss_description, cause_of_loss, affected_assets, authorities_involved,
}

-- `unicodedata.normalize("NFKD", …)`, the removal of `unicodedata.combining` characters, `strip`,
-- `lower`, `re.sub` of runs of white space by one space, `" ".join`, and `in`.
pub record PythonStrings : Type 0 where
  pub nfkd : String → String
  pub drop_combining : String → String
  pub strip : String → String
  pub lower : String → String
  pub collapse : String → String
  pub join : List String → String
  pub contains : String → String → Bool

abbrev pub litigation_signals : List String
litigation_signals =
    "solicitor" ∷ "letter of claim" ∷ "litigation" ∷ "court" ∷ "writ" ∷ "subrogation"
    ∷ "legal proceedings" ∷ "claim form" ∷ "pre-action protocol" ∷ "attorney" ∷ "lawsuit" ∷ []

abbrev pub injury_signals : List String
injury_signals =
    "fatality" ∷ "fatal" ∷ "died" ∷ "life-changing" ∷ "amputation" ∷ "hospitalised" ∷ "hospitalized"
    ∷ "intensive care" ∷ "serious injury" ∷ []

-- The parts that are not empty.
abbrev pub filled : List (Option String) → List String
filled [] = []
filled (none ∷ parts) = filled parts
filled (some part ∷ parts) = if part == "" then filled parts else part ∷ filled parts

module _ (py : PythonStrings) where
  open py use {nfkd, drop_combining, strip, lower, collapse, join, contains}

  unfoldable pub normalise : String → String
  normalise value =
      if value == "" then "" else collapse (lower (strip (drop_combining (nfkd value))))

  unfoldable pub text_signals : FnolCase → String
  unfolding normalise
  text_signals c = normalise (
      join (
        filled (
          as_text (c.column loss_description)
          ∷ as_text (c.column cause_of_loss)
          ∷ as_text (c.column affected_assets)
          ∷ as_text (c.column authorities_involved)
          ∷ c.source_body
          ∷ [])))

  unfoldable pub has_litigation_signal : String → Bool
  has_litigation_signal text = any (λ signal. contains text signal) litigation_signals

  unfoldable pub has_serious_injury_signal : String → Bool
  has_serious_injury_signal text = any (λ signal. contains text signal) injury_signals
