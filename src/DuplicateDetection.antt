-- ===== src/DuplicateDetection.antt =====
-- Whether two records describe the same loss, `app/domain/duplicates.py`, and
-- `DuplicateDetectionService` of `app/services/fnol/matching.py`. The notices and claims that the two
-- queries find are arguments. A signal is an exact fraction, or nothing where the code has `-1`.
pub mod Kept
use claims_workbench_be.Common.{
  ℕ, ◌+◌, ◌-◌, ◌*◌, ◌/◌, Bool, true, false, not, ◌&&◌, ◌||◌, Option, none, some, List, [], ◌∷◌,
  ◌++◌, map, keep, String, nat_eq, string_eq, ◌==◌, if◌then◌else◌, ltb, leb,
}
use claims_workbench_be.Common.Each.{sort_by}
use claims_workbench_be.References.{Text}
use claims_workbench_be.Model.Case.{Attribute, FnolCase, as_text, as_stamp, holds_text}
use claims_workbench_be.Model.Claims.{Claim}
use claims_workbench_be.Model.Db.{Db}
use claims_workbench_be.Repository.Duplicates.{upsert_duplicate, prune_duplicates}
use claims_workbench_be.Session.{Session}
use claims_workbench_be.Triage.Handlers.{rounded}
use claims_workbench_be.Matching.{
  PythonWords, Ratio, none_of, all_of, weighted_score, normalise_reference, name_similarity,
  text_similarity, location_similarity,
}
use claims_workbench_be.PolicyMatch.{all_or_none, compare_by}

-- What `getattr` finds on a notice or on a claim; a column that a record does not have is `none`.
pub record Compared : Type 0 where
  pub id : ℕ
  pub kind : String
  pub reference : String
  pub external_reference : Option String
  pub policy_number : Option String
  pub policy_id : Option ℕ
  pub date_of_loss : Option ℕ
  pub insured_name : Option String
  pub claimant_name : Option String
  pub loss_location : Option String
  pub loss_description : Option String
  pub affected_assets : Option String

-- A reference as a text.
abbrev pub of_case : (Text → String) → FnolCase → Compared
of_case spell c = record {
  id = c.id;
  kind = "fnol";
  reference = spell c.reference;
  external_reference = c.external_reference;
  policy_number = as_text (c.column Attribute.policy_number);
  policy_id = c.policy_id;
  date_of_loss = as_stamp (c.column Attribute.date_of_loss);
  insured_name = as_text (c.column Attribute.insured_name);
  claimant_name = none;
  loss_location = as_text (c.column Attribute.loss_location);
  loss_description = as_text (c.column Attribute.loss_description);
  affected_assets = as_text (c.column Attribute.affected_assets);
}

abbrev pub of_claim : (Text → String) → Claim → Compared
of_claim spell c = record {
  id = c.id;
  kind = "claim";
  reference = spell c.reference;
  external_reference = none;
  policy_number = c.policy_number;
  policy_id = c.policy_id;
  date_of_loss = c.date_of_loss;
  insured_name = c.insured_name;
  claimant_name = c.claimant_name;
  loss_location = c.loss_location;
  loss_description = c.loss_description;
  affected_assets = none;
}

-- The reasons are left out; the score is in ten-thousandths.
pub record DuplicateAssessment : Type 0 where
  pub record_of : Compared
  pub score : ℕ

abbrev pub first_text : Option String → Option String → Option String
first_text a b = if holds_text a then a else b

-- The time between two times, in microseconds.
abbrev pub gap : ℕ → ℕ → ℕ
gap a b = (a - b) + (b - a)

-- `_date_signal`
abbrev pub date_signal : Option ℕ → Option ℕ → Option Ratio
date_signal (some a) (some b) = some (
    if leb (gap a b) (36 * 3600000000)
    then all_of
    else if leb (gap a b) (4 * 86400000000)
    then record { over = 4 - gap a b / 86400000000; under = 4 }
    else none_of)
date_signal _ _ = none

abbrev pub same_record : Option ℕ → Option ℕ → Option Ratio
same_record (some a) (some b) = if a == b then some all_of else none
same_record _ _ = none

module _ (py : PythonWords) where
  abbrev pub reference_signal : Option String → Option String → Option Ratio
  reference_signal a b =
      let own = normalise_reference py a in
      let theirs = normalise_reference py b in
      if own == "" || theirs == "" then none else some (all_or_none (own == theirs))

  -- The numbers when both are known, or else the policy records.
  abbrev pub policy_signal : Compared → Compared → Option Ratio
  policy_signal c d =
      let own = normalise_reference py c.policy_number in
      let theirs = normalise_reference py d.policy_number in
      if own == "" || theirs == ""
      then same_record c.policy_id d.policy_id
      else some (all_or_none (own == theirs))

  -- The weights are in tenths, and in the order in which the code adds them.
  unfoldable pub compare_losses : Compared → Compared → DuplicateAssessment
  compare_losses c d =
      let score = weighted_score (
        (policy_signal c d, 30)
        ∷ (date_signal c.date_of_loss d.date_of_loss, 25)
        ∷ (compare_by (name_similarity py) c.insured_name d.insured_name, 15)
        ∷ (
          compare_by (name_similarity py) (first_text c.claimant_name c.insured_name)
              (first_text d.claimant_name d.insured_name),
          10,
        )
        ∷ (compare_by (location_similarity py) c.loss_location d.loss_location, 20)
        ∷ (compare_by (text_similarity py) c.loss_description d.loss_description, 20)
        ∷ (compare_by (text_similarity py) c.affected_assets d.affected_assets, 8)
        ∷ (
          reference_signal c.external_reference
              (first_text d.external_reference (some d.reference)),
          30,
        )
        ∷ []) in
      record { record_of = d; score = rounded (10000 * score.over) score.under }

abbrev pub fnol_id : Compared → Option ℕ
fnol_id d = if d.kind == "fnol" then some d.id else none

abbrev pub claim_id : Compared → Option ℕ
claim_id d = if d.kind == "claim" then some d.id else none

abbrev pub scores_above : DuplicateAssessment → DuplicateAssessment → Bool
scores_above a b = ltb b.score a.score

unfoldable pub store_duplicates : ℕ → List DuplicateAssessment → Db → Db
store_duplicates case_id [] db = db
store_duplicates case_id (a ∷ rest) db =
    let d = a.record_of in
    store_duplicates case_id rest
      (upsert_duplicate case_id d.kind d.reference a.score (fnol_id d) (claim_id d) db)

module _ (py : PythonWords) (spell : Text → String) (threshold : ℕ) where
  -- The records that score, the highest first.
  unfoldable pub scoring : List FnolCase → List Claim → FnolCase → List DuplicateAssessment
  unfolding compare_losses
  scoring notices claims c =
      let others = map (of_case spell) notices ++ map (of_claim spell) claims in
      let assessments = map (compare_losses py (of_case spell c)) others in
      sort_by scores_above (keep (λ (a : DuplicateAssessment). leb threshold a.score) assessments)

  unfoldable pub detect : List FnolCase → List Claim → Session → List DuplicateAssessment × Session
  unfolding scoring store_duplicates
  detect notices claims s =
      let found = scoring notices claims s.case in
      let references = map (λ (a : DuplicateAssessment). a.record_of.reference) found in
      (
        found,
        record s {
          db = prune_duplicates s.case.id references (store_duplicates s.case.id found s.db);
        },
      )
