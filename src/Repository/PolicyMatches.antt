-- ===== src/Repository/PolicyMatches.antt =====
-- The policy candidates of a case, `app/repositories/fnol.py`: `get_policy_match`,
-- `list_policy_matches` and `replace_policy_matches`. The order of a list query is not kept.
use claims_workbench_be.Common.{
  ℕ, suc, Bool, false, not, ◌&&◌, ◌||◌, Option, none, some, List, [], ◌∷◌, map, keep, find_first,
  String, nat_eq, ◌==◌, ◌∈?◌, if◌then◌else◌,
}
use claims_workbench_be.Common.Table.{find, upsert, pair_eq}
use claims_workbench_be.Model.Rows.{FnolPolicyMatch}
use claims_workbench_be.Model.Db.{Db}
use claims_workbench_be.PolicyMatch.{PolicyCandidate}

-- `uq_fnol_policy_candidate`
abbrev pub match_key : FnolPolicyMatch → ℕ × ℕ
match_key m = (m.fnol_case_id, m.policy_id)

unfoldable pub get_policy_match : ℕ → ℕ → Db → Option FnolPolicyMatch
get_policy_match case_id policy_id db = find match_key (case_id, policy_id) db.policy_matches

-- The candidate that a human chose, if any.
unfoldable pub selected_match : ℕ → List FnolPolicyMatch → Option FnolPolicyMatch
selected_match case_id rows = find_first (λ m. m.fnol_case_id == case_id && m.selected) rows

-- `policy_id == selected_id`
abbrev pub is_chosen : Option FnolPolicyMatch → ℕ → Bool
is_chosen none policy_id = false
is_chosen (some m) policy_id = policy_id == m.policy_id

abbrev pub chosen_by : Option FnolPolicyMatch → Option String
chosen_by none = none
chosen_by (some m) = m.selected_by

-- A row that is not deleted.
abbrev pub stays : ℕ → List ℕ → Option FnolPolicyMatch → FnolPolicyMatch → Bool
stays case_id incoming chosen m =
    not (m.fnol_case_id == case_id) || (m.policy_id ∈? incoming || is_chosen chosen m.policy_id)

-- The columns that a run writes.
abbrev pub rescored :
    Option FnolPolicyMatch → ℕ → PolicyCandidate → FnolPolicyMatch → FnolPolicyMatch
rescored chosen rank c m = record m {
  match_strength = c.strength;
  score = c.score;
  rank = rank;
  selected = is_chosen chosen c.policy_id;
  selected_by = if is_chosen chosen c.policy_id then chosen_by chosen else none;
}

abbrev pub new_match : ℕ → PolicyCandidate → FnolPolicyMatch
new_match case_id c = record {
  fnol_case_id = case_id;
  policy_id = c.policy_id;
  match_strength = c.strength;
  score = c.score;
  rank = 0;
  selected = false;
  selected_by = none;
}

unfoldable pub store_matches :
    ℕ
    → Option FnolPolicyMatch
    → ℕ
    → List PolicyCandidate
    → List FnolPolicyMatch
    → List FnolPolicyMatch
store_matches case_id chosen rank [] rows = rows
store_matches case_id chosen rank (c ∷ rest) rows = store_matches case_id chosen (suc rank) rest (
    upsert match_key (case_id, c.policy_id) (rescored chosen rank c (new_match case_id c))
      (rescored chosen rank c) rows)

unfoldable pub replace_policy_matches : ℕ → List PolicyCandidate → Db → Db
unfolding selected_match store_matches
replace_policy_matches case_id candidates db =
    let chosen = selected_match case_id db.policy_matches in
    let incoming = map (λ (c : PolicyCandidate). c.policy_id) candidates in
    record db {
      policy_matches =
          store_matches case_id chosen 0 candidates
            (keep (stays case_id incoming chosen) db.policy_matches);
    }
