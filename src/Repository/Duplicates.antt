-- ===== src/Repository/Duplicates.antt =====
-- The duplicate candidates of a case, `app/repositories/fnol.py`: `list_duplicates`, `get_duplicate`,
-- `upsert_duplicate` and `prune_duplicates`. The order of a list query is not kept.
use claims_workbench_be.Common.{
  ℕ, ◌+◌, Bool, not, ◌||◌, Option, none, List, keep, String, nat_eq, string_eq, ◌==◌, ◌∈?◌,
}
use claims_workbench_be.Common.Table.{find, modify, upsert, pair_eq}
use claims_workbench_be.Enums.Intake.{DuplicateResolution, duplicate_resolution_eq}
use claims_workbench_be.Model.Rows.{FnolDuplicateCandidate}
use claims_workbench_be.Model.Db.{Db}

abbrev pub duplicate_id : FnolDuplicateCandidate → ℕ
duplicate_id d = d.id

-- `uq_fnol_duplicate_candidate`
abbrev pub duplicate_key : FnolDuplicateCandidate → ℕ × String
duplicate_key d = (d.fnol_case_id, d.candidate_reference)

unfoldable pub get_duplicate : ℕ → Db → Option FnolDuplicateCandidate
get_duplicate id db = find duplicate_id id db.duplicates

unfoldable pub list_duplicates : ℕ → Db → List FnolDuplicateCandidate
list_duplicates case_id db = keep (λ d. d.fnol_case_id == case_id) db.duplicates

unfoldable pub update_duplicate : ℕ → (FnolDuplicateCandidate → FnolDuplicateCandidate) → Db → Db
update_duplicate id f db = record db { duplicates = modify duplicate_id id f db.duplicates }

abbrev pub is_unresolved : FnolDuplicateCandidate → Bool
is_unresolved d = d.resolution == DuplicateResolution.unresolved

abbrev pub rescored_duplicate : ℕ → FnolDuplicateCandidate → FnolDuplicateCandidate
rescored_duplicate score d = record d { score = score }

abbrev pub new_duplicate :
    ℕ → ℕ → String → String → ℕ → Option ℕ → Option ℕ → FnolDuplicateCandidate
new_duplicate id case_id kind reference score fnol_id claim_id = record {
  id = id;
  fnol_case_id = case_id;
  candidate_kind = kind;
  candidate_reference = reference;
  candidate_fnol_id = fnol_id;
  candidate_claim_id = claim_id;
  score = score;
  resolution = DuplicateResolution.unresolved;
  resolved_by = none;
  resolved_at = none;
  resolution_note = none;
}

-- A rescored candidate keeps what was decided about it.
unfoldable pub upsert_duplicate : ℕ → String → String → ℕ → Option ℕ → Option ℕ → Db → Db
upsert_duplicate case_id kind reference score fnol_id claim_id db = record db {
  next_id = db.next_id + 1;
  duplicates =
      upsert duplicate_key (case_id, reference)
        (new_duplicate db.next_id case_id kind reference score fnol_id claim_id)
        (rescored_duplicate score) db.duplicates;
}

-- An unresolved candidate that no longer scores is deleted.
unfoldable pub prune_duplicates : ℕ → List String → Db → Db
prune_duplicates case_id references db = record db {
  duplicates =
      keep
        (λ d.
          not (d.fnol_case_id == case_id)
          || (d.candidate_reference ∈? references || not (is_unresolved d)))
        db.duplicates;
}
