-- ===== src/Examples/Policies.antt =====
-- A notification that names a policy, the candidates found for it, and the one that an officer selects.
use claims_workbench_be.Common.{
  ℕ, ◌≡◌, refl, true, false, Option, none, some, List, [], ◌∷◌, String, nat_eq, string_eq, ◌==◌,
}
use claims_workbench_be.Model.Case.{Attribute, Value, text}
use claims_workbench_be.Model.Claims.{Policy}
use claims_workbench_be.Model.Rows.{FnolPolicyMatch}
use claims_workbench_be.Enums.Assessment.{PolicyMatchStrength}
use claims_workbench_be.Session.{Session}
use claims_workbench_be.Matching.{PythonWords, normalise_reference, weighted_score}
use claims_workbench_be.Signals.{normalise}
use claims_workbench_be.Common.Each.{sort_by}
use claims_workbench_be.Common.Table.{find}
use claims_workbench_be.PolicyMatch.{Thresholds, rank_candidates, overall_strength}
use claims_workbench_be.Repository.PolicyMatches.{get_policy_match}
use claims_workbench_be.PolicyMatching.{match_policies, select, Selection, no_candidate, selected}
use claims_workbench_be.PolicyMatching.Confirmed.{match_all, match_all-select}
use claims_workbench_be.PolicyMatching.Automatic.{Bound, match_policies-Bound}
use claims_workbench_be.Examples.Fixtures.{notice, desk}
use claims_workbench_be.Examples.Desk.{plain_strings}

abbrev pub plain_words : PythonWords
plain_words = record {
  strings = plain_strings;
  find_words = λ s. s ∷ [];
  join_words = λ words. "";
  len = λ s. 9;
  alphanumeric = λ s. s;
  behind_at = λ s. s;
  points = λ s. [];
}

abbrev thresholds : Thresholds
thresholds = record { high = 8000; candidate = 4500 }

abbrev numbered_columns : Attribute → Option Value
numbered_columns Attribute.policy_number = some (text "pol 41")
numbered_columns _ = none

abbrev numbered : Session
numbered = record {
  case = record notice { column = numbered_columns; policy_id = none; policy_confirmed = false };
  db = desk;
}

abbrev pub policy : ℕ → String → Policy
policy id number = record {
  id = id;
  policy_number = number;
  insured_name = "Acme Ltd";
  insured_organisation = none;
  insured_email = none;
  broker_name = none;
  primary_location = none;
  effective_date = 0;
  expiry_date = 400;
  limit_amount_minor = none;
  deductible_amount_minor = none;
  status = "active";
  perils_covered = "fire" ∷ [];
  exclusions = [];
  region = none;
  country = none;
  addresses = [];
  line_of_business = "";
}

abbrev pool : List Policy
pool = policy 7 "pol 41" ∷ policy 8 "pol 42" ∷ []

abbrev matched : Session
matched = (match_policies plain_words thresholds pool numbered).1

exact_match :
    overall_strength thresholds (rank_candidates plain_words thresholds numbered.case pool)
    ≡ PolicyMatchStrength.exact
unfolding overall_strength rank_candidates sort_by normalise_reference normalise weighted_score
exact_match = refl

match_policies-Bound_example :
    Bound plain_words thresholds numbered.case pool
      (rank_candidates plain_words thresholds numbered.case pool)
      matched.case
match_policies-Bound_example = match_policies-Bound plain_words thresholds pool numbered

-- The table with a candidate that is not selected yet.
abbrev candidate : FnolPolicyMatch
candidate = record {
  fnol_case_id = 1;
  policy_id = 7;
  match_strength = PolicyMatchStrength.exact;
  score = 10000;
  rank = 0;
  selected = false;
  selected_by = none;
}

abbrev listed : Session
listed = record { case = notice; db = record desk { policy_matches = candidate ∷ [] } }

abbrev policies : ℕ → Option Policy
policies id = some (policy id "pol 41")

abbrev settled : Selection → Session
settled no_candidate = listed
settled (selected q s) = s

abbrev chosen : Session
chosen = settled (select policies 7 "A. Reyes" listed)

selecting : select policies 7 "A. Reyes" listed ≡ selected (policies 7) chosen
unfolding select get_policy_match find
selecting = refl

match_all-select_example :
    let later = match_all plain_words thresholds (pool ∷ [] ∷ []) chosen in
    (later.case.policy_id ≡ some 7)
    × (later.case.policy_confirmed ≡ true)
    × ((m : FnolPolicyMatch) × (get_policy_match 1 7 later.db ≡ some m)
        × (m.selected_by ≡ some "A. Reyes"))
    × ((r : ℕ) (m : FnolPolicyMatch)
        → get_policy_match 1 r later.db ≡ some m
        → m.selected ≡ (r == 7))
match_all-select_example =
    match_all-select plain_words thresholds policies 7 "A. Reyes" listed chosen (policies 7)
      (pool ∷ [] ∷ []) selecting
