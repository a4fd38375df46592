-- ===== src/PolicyMatching.antt =====
-- `PolicyMatchingService` of `app/services/fnol/matching.py`. The candidates that
-- `app/repositories/policy.py` finds for a case are an argument, and so is the table of policies.
pub mod Chosen
pub mod Confirmed
pub mod Automatic
use claims_workbench_be.Common.{
  ℕ, Bool, true, false, Option, none, some, List, [], ◌∷◌, map, String, nat_eq, ◌==◌, if◌then◌else◌,
}
use claims_workbench_be.Enums.Assessment.{PolicyMatchStrength}
use claims_workbench_be.Model.Case.{Attribute, text, FnolCase, set_column, as_text, holds_text}
use claims_workbench_be.Model.Claims.{Policy}
use claims_workbench_be.Model.Rows.{FnolPolicyMatch}
use claims_workbench_be.Model.Db.{Db}
use claims_workbench_be.Repository.PolicyMatches.{get_policy_match, replace_policy_matches}
use claims_workbench_be.Session.{Session}
use claims_workbench_be.Matching.{PythonWords}
use claims_workbench_be.PolicyMatch.{Thresholds, PolicyCandidate, rank_candidates, overall_strength}

-- An unambiguous exact match is bound, unless a human has confirmed a policy.
abbrev pub bind : PolicyMatchStrength → List PolicyCandidate → FnolCase → FnolCase
bind PolicyMatchStrength.exact (best ∷ rest) c =
    if c.policy_confirmed then c else record c { policy_id = some best.policy_id }
bind strength ranked c = c

module _ (py : PythonWords) (t : Thresholds) where
  unfoldable pub match_policies :
      List Policy → Session → (List PolicyCandidate × PolicyMatchStrength) × Session
  unfolding rank_candidates overall_strength replace_policy_matches
  match_policies pool s =
      let ranked = rank_candidates py t s.case pool in
      let strength = overall_strength t ranked in
      (
        (ranked, strength),
        record s {
          case = bind strength ranked s.case;
          db = replace_policy_matches s.case.id ranked s.db;
        },
      )

-- The policy that was selected, if it is still there, or that it was no candidate.
pub data Selection : Type 0 where
  no_candidate : Selection
  selected : Option Policy → Session → Selection

-- The row of a candidate, once one is selected.
abbrev pub choose : ℕ → ℕ → String → FnolPolicyMatch → FnolPolicyMatch
choose case_id policy_id actor m =
    if m.fnol_case_id == case_id
    then record m {
      selected = m.policy_id == policy_id;
      selected_by = if m.policy_id == policy_id then some actor else none;
    }
    else m

-- The policy is the authority on its number, and on the insured when nothing is known of them.
abbrev pub confirmed_as : Option Policy → FnolCase → FnolCase
confirmed_as none c = c
confirmed_as (some p) c =
    let numbered = set_column c Attribute.policy_number (some (text p.policy_number)) in
    if holds_text (as_text (c.column Attribute.insured_name))
    then numbered
    else set_column numbered Attribute.insured_name (some (text p.insured_name))

abbrev pub select_found :
    (ℕ → Option Policy) → ℕ → String → Session → Option FnolPolicyMatch → Selection
select_found policies policy_id actor s none = no_candidate
select_found policies policy_id actor s (some m) =
    let confirmed : FnolCase = record s.case {
      policy_id = some policy_id;
      policy_confirmed = true;
    } in
    selected (policies policy_id) (record s {
      case = confirmed_as (policies policy_id) confirmed;
      db = record s.db {
        policy_matches = map (choose s.case.id policy_id actor) s.db.policy_matches;
      };
    })

unfoldable pub select : (ℕ → Option Policy) → ℕ → String → Session → Selection
unfolding get_policy_match
select policies policy_id actor s =
    select_found policies policy_id actor s (get_policy_match s.case.id policy_id s.db)
