-- ===== src/PolicyMatch.antt =====
-- How well a policy answers a notification: `app/domain/policy_match.py`. A signal is an exact fraction,
-- or nothing where the code has `-1`; a score is in ten-thousandths, as it is stored.
pub mod Bound
use claims_workbench_be.Common.{
  ℕ, ◌+◌, ◌*◌, Bool, true, false, not, ◌&&◌, ◌||◌, Option, none, some, List, [], ◌∷◌, map, keep,
  take, any, String, nat_eq, string_eq, ◌==◌, if◌then◌else◌, ltb, leb, is_empty,
}
use claims_workbench_be.Common.Each.{sort_by}
use claims_workbench_be.Enums.Assessment.{PolicyMatchStrength}
use claims_workbench_be.Model.Case.{Attribute, FnolCase, as_text, as_stamp, holds_text, day_of}
use claims_workbench_be.Model.Claims.{Policy}
use claims_workbench_be.Triage.Handlers.{rounded}
use claims_workbench_be.Matching.{
  PythonWords, Ratio, none_of, all_of, weighted_score, normal, normalise_reference, name_similarity,
  location_similarity,
}

-- The signals that were scored, by name.
pub record Signals : Type 0 where
  pub policy_number : Option Ratio
  pub insured_name : Option Ratio
  pub organisation : Option Ratio
  pub broker : Option Ratio
  pub email : Option Ratio
  pub location : Option Ratio
  pub line_of_business : Option Ratio
  pub in_force : Option Ratio

-- The two thresholds of the configuration, in ten-thousandths.
pub record Thresholds : Type 0 where
  pub high : ℕ
  pub candidate : ℕ

-- `matched_on` has the signals that are not `none`; the reasoning is left out.
pub record PolicyCandidate : Type 0 where
  pub policy_id : ℕ
  pub policy_number : String
  pub score : ℕ
  pub strength : PolicyMatchStrength
  pub matched_on : Signals

abbrev pub close : Ratio
close = record { over = 8; under = 10 }

abbrev pub same_domain : Ratio
same_domain = record { over = 6; under = 10 }

abbrev pub all_or_none : Bool → Ratio
all_or_none b = if b then all_of else none_of

-- The score of a signal is at least that many ten-thousandths.
abbrev pub at_least : Ratio → ℕ → Bool
at_least r t = leb (t * r.under) (10000 * r.over)

abbrev pub reaches_one : Option Ratio → Bool
reaches_one none = false
reaches_one (some r) = leb r.under r.over

-- `!= 0.0`
abbrev pub not_zero : Option Ratio → Bool
not_zero none = true
not_zero (some r) = ltb 0 r.over

abbrev pub positive : Option Ratio → Bool
positive none = false
positive (some r) = ltb 0 r.over

-- `_in_force`
abbrev pub in_force_on : Option ℕ → Policy → Option Bool
in_force_on none policy = none
in_force_on (some loss) policy =
    some (leb policy.effective_date (day_of loss) && leb (day_of loss) policy.expiry_date)

abbrev pub in_force_signal : Option Bool → Option Ratio
in_force_signal none = none
in_force_signal (some b) = some (all_or_none b)

-- `_compare`
abbrev pub compare_by :
    (Option String → Option String → Ratio) → Option String → Option String → Option Ratio
compare_by comparator left right =
    if holds_text left && holds_text right then some (comparator left right) else none

abbrev pub line_signal : Option String → String → Option Ratio
line_signal none line = none
line_signal (some own) line =
    if own == "" || line == "" then none else some (all_or_none (own == line))

-- Each signal with its weight, in tenths, in the order in which the code adds them.
abbrev pub weighted_signals : Signals → List (Option Ratio × ℕ)
weighted_signals s =
    (s.policy_number, 50)
    ∷ (s.insured_name, 20)
    ∷ (s.organisation, 12)
    ∷ (s.broker, 8)
    ∷ (s.email, 10)
    ∷ (s.location, 8)
    ∷ (s.line_of_business, 6)
    ∷ (s.in_force, 15)
    ∷ []

-- `_strength`
unfoldable pub strength_of : Ratio → Signals → Thresholds → PolicyMatchStrength
strength_of score signals t =
    if reaches_one signals.policy_number && (not_zero signals.in_force && at_least score t.high)
    then PolicyMatchStrength.exact
    else if at_least score t.high
    then PolicyMatchStrength.high
    else if at_least score t.candidate
    then PolicyMatchStrength.possible
    else PolicyMatchStrength.none

-- `_identified`, over `IDENTIFYING_SIGNALS`
unfoldable pub identified : PolicyCandidate → Bool
identified c =
    let s = c.matched_on in
    positive s.policy_number
    || (positive s.insured_name
        || (positive s.organisation || (positive s.broker || positive s.email)))

module _ (py : PythonWords) where
  unfoldable pub number_signal : String → String → Option Ratio
  number_signal own theirs =
      if own == "" || theirs == ""
      then none
      else if own == theirs
      then some all_of
      else if py.strings.contains theirs own || py.strings.contains own theirs
      then some close
      else some none_of

  -- `_domain_match`
  abbrev pub domain_match : String → String → Ratio
  domain_match left right =
      let domain = py.behind_at left in
      if not (domain == "") && domain == py.behind_at right then same_domain else none_of

  abbrev pub email_signal : String → String → Option Ratio
  email_signal own theirs =
      if own == "" || theirs == ""
      then none
      else some (if own == theirs then all_of else domain_match own theirs)

  unfoldable pub signals_of : FnolCase → Policy → Signals
  unfolding number_signal
  signals_of c p = record {
    policy_number =
        number_signal (normalise_reference py (as_text (c.column Attribute.policy_number)))
          (normalise_reference py (some p.policy_number));
    insured_name =
        compare_by (name_similarity py) (as_text (c.column Attribute.insured_name))
          (some p.insured_name);
    organisation =
        compare_by (name_similarity py) (as_text (c.column Attribute.insured_organisation))
          p.insured_organisation;
    broker =
        compare_by (name_similarity py) (as_text (c.column Attribute.reporter_organisation))
          p.broker_name;
    email =
        email_signal (normal py (as_text (c.column Attribute.reporter_email)))
          (normal py p.insured_email);
    location =
        compare_by (location_similarity py) (as_text (c.column Attribute.loss_location))
          p.primary_location;
    line_of_business = line_signal c.line_of_business p.line_of_business;
    in_force = in_force_signal (in_force_on (as_stamp (c.column Attribute.date_of_loss)) p);
  }

  unfoldable pub score_policy : Thresholds → FnolCase → Policy → PolicyCandidate
  unfolding signals_of strength_of
  score_policy t c p =
      let signals = signals_of c p in
      let score = weighted_score (weighted_signals signals) in
      record {
        policy_id = p.id;
        policy_number = p.policy_number;
        score = rounded (10000 * score.over) score.under;
        strength = strength_of score signals t;
        matched_on = signals;
      }

  abbrev pub scores_above : PolicyCandidate → PolicyCandidate → Bool
  scores_above c d = ltb d.score c.score

  unfoldable pub rank_candidates : Thresholds → FnolCase → List Policy → List PolicyCandidate
  unfolding score_policy identified
  rank_candidates t c policies =
      let scored = keep identified (map (score_policy t c) policies) in
      let viable = keep (λ (d : PolicyCandidate). leb t.candidate d.score) scored in
      take 5 (sort_by scores_above viable)

-- `overall_strength`
unfoldable pub overall_strength : Thresholds → List PolicyCandidate → PolicyMatchStrength
overall_strength t [] = PolicyMatchStrength.none
overall_strength t (best ∷ rest) =
    if any (λ (d : PolicyCandidate). leb t.high d.score) rest
    then PolicyMatchStrength.possible
    else best.strength
