-- ===== src/Examples/Decided.antt =====
-- An officer decides a duplicate candidate and an exception.
use claims_workbench_be.Common.{Option, none, some, [], ◌∷◌, ◌≡◌, refl, nat_eq}
use claims_workbench_be.Common.Table.{find, pair_eq}
use claims_workbench_be.Enums.Intake.{
  ExceptionCode, exception_code_eq, ExceptionStatus, DuplicateResolution,
}
use claims_workbench_be.Model.Rows.{FnolDuplicateCandidate, duplicate_of}
use claims_workbench_be.Session.{Session}
use claims_workbench_be.Repository.Duplicates.{get_duplicate}
use claims_workbench_be.Decisions.{
  Decider, decided, ExceptionResolution, resolved, resolve_duplicate, resolve_exception,
}
use claims_workbench_be.Decisions.Duplicates.{Resolved, resolve_duplicate-Resolved}
use claims_workbench_be.Decisions.Exceptions.{Final, resolve_exception-Final}
use claims_workbench_be.DuplicateDetection.Kept.{Stands, detect_all, detect_all-Stands}
use claims_workbench_be.Examples.Policies.{plain_words}
use claims_workbench_be.Examples.Fixtures.{notice, desk, raised}

abbrev candidate : FnolDuplicateCandidate
candidate = record {
  id = 20;
  fnol_case_id = 1;
  candidate_kind = "fnol";
  candidate_reference = "FNOL-2026-000007";
  candidate_fnol_id = some 9;
  candidate_claim_id = none;
  score = 9100;
  resolution = DuplicateResolution.unresolved;
  resolved_by = none;
  resolved_at = none;
  resolution_note = none;
}

abbrev suspected : Session
suspected = record {
  case = notice;
  db = record desk {
    exceptions =
        raised 12 ExceptionCode.possible_duplicate (duplicate_of "FNOL-2026-000007" 91 1)
          ExceptionStatus.«open»
        ∷ [];
    duplicates = candidate ∷ [];
  };
}

abbrev officer : Decider
officer = record { actor = "A. Reyes"; now = 300 }

abbrev or_suspected : Option Session → Session
or_suspected none = suspected
or_suspected (some s) = s

abbrev linked : Session
linked = or_suspected (resolve_duplicate 20 DuplicateResolution.linked none officer suspected)

linking : resolve_duplicate 20 DuplicateResolution.linked none officer suspected ≡ some linked
unfolding resolve_duplicate get_duplicate find
linking = refl

resolve_duplicate-Resolved_example : Resolved suspected linked
unfolding find
resolve_duplicate-Resolved_example =
    resolve_duplicate-Resolved 20 DuplicateResolution.linked none officer suspected linked (λ e. cc)
      (λ e. cc) (refl, tt) (refl, tt) refl linking

abbrev outcome : ExceptionResolution → Session
outcome (resolved s) = s
outcome _ = suspected

abbrev dismissed : Session
dismissed = outcome (resolve_exception 12 ExceptionStatus.dismissed none officer suspected)

dismissing :
    resolve_exception 12 ExceptionStatus.dismissed none officer suspected ≡ resolved dismissed
unfolding resolve_exception find
dismissing = refl

resolve_exception-Final_example : Final 12 ExceptionStatus.dismissed "A. Reyes" suspected dismissed
resolve_exception-Final_example =
    resolve_exception-Final 12 ExceptionStatus.dismissed none officer suspected dismissed (λ e. cc)
      dismissing

-- The candidate, once an officer has linked it.
abbrev linked_candidate : FnolDuplicateCandidate
linked_candidate = decided DuplicateResolution.linked none officer candidate

abbrev scanned : Session
scanned = record { case = notice; db = record desk { duplicates = linked_candidate ∷ [] } }

-- Two scans, of which the first finds the notice itself and the second nothing.
detect_all-Stands_example :
    Stands 1 "FNOL-2026-000007" linked_candidate
      (detect_all plain_words
        (λ t. "")
        6200
        ((notice ∷ [], []) ∷ ([], []) ∷ [])
        scanned).db.duplicates
unfolding find
detect_all-Stands_example =
    detect_all-Stands 1 "FNOL-2026-000007" linked_candidate plain_words (λ t. "") 6200
      ((notice ∷ [], []) ∷ ([], []) ∷ []) scanned refl (λ e. cc)
