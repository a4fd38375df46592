-- ===== src/ClaimCreation.antt =====
-- `ClaimCreationService` of `app/services/fnol/claims.py`. An error leaves the database as it was: the
-- caller's transaction is rolled back.
pub mod Create
pub mod Refused
pub mod Stored
pub mod Once
use claims_workbench_be.Common.{
  ℕ, Bool, true, false, not, ◌||◌, Option, none, some, List, [], ◌∷◌, ◌++◌, map, String, nat_eq,
  string_eq, ◌==◌, is_some, is_empty, keep, find_first, if◌then◌else◌,
}
use claims_workbench_be.Enums.Intake.{ExceptionCode, exception_code_eq}
use claims_workbench_be.Lifecycle.{blocking_codes}
use claims_workbench_be.Model.Case.{
  FnolCase, as_text, as_stamp, holds_text, date_of_loss, loss_description, insured_name,
}
use claims_workbench_be.Model.Rows.{FnolException, FnolParty, Message}
use claims_workbench_be.Model.Claims.{Claim}
use claims_workbench_be.Model.Db.{Db}
use claims_workbench_be.Repository.Exceptions.{list_exceptions}

-- A blocker, by the code that it is shown with.
pub data Blocker : Type 0 where
  open_exception : ExceptionCode → Message → Blocker
  policy_required : Blocker
  date_of_loss_required : Blocker
  loss_description_required : Blocker
  claimant_required : Blocker

abbrev pub exception_codes_of : List FnolException → List ExceptionCode
exception_codes_of = map (λ (e : FnolException). e.code)

-- `by_code[code]`: the dictionary keeps the last exception of a code.
abbrev pub by_code : List FnolException → ExceptionCode → List Blocker
by_code [] code = []
by_code (e ∷ rest) code =
    let later = by_code rest code in
    if is_empty later
    then (if e.code == code then open_exception code e.message ∷ [] else [])
    else later

abbrev pub exception_blockers : List FnolException → List ExceptionCode → List Blocker
exception_blockers rows [] = []
exception_blockers rows (code ∷ codes) = by_code rows code ++ exception_blockers rows codes

unfoldable pub list_parties : ℕ → Db → List FnolParty
list_parties case_id db = keep (λ p. p.fnol_case_id == case_id) db.parties

abbrev pub party_name : Option FnolParty → Option String
party_name none = none
party_name (some p) = some p.name

abbrev pub with_role : String → List FnolParty → Option FnolParty
with_role role = find_first (λ (p : FnolParty). p.role == role)

abbrev pub claimant_of : List FnolParty → Option String
claimant_of parties =
    if is_some (with_role "claimant" parties)
    then party_name (with_role "claimant" parties)
    else party_name (with_role "insured" parties)

-- `_claimant_name`
unfoldable pub claimant_name : FnolCase → Db → Option String
unfolding list_parties
claimant_name c db = claimant_of (list_parties c.id db)

abbrev pub unless : Bool → Blocker → List Blocker
unless true blocker = []
unless false blocker = blocker ∷ []

unfoldable pub blockers : FnolCase → Db → List Blocker
unfolding claimant_name
blockers c db =
    let open_exceptions = list_exceptions c.id true db in
    exception_blockers open_exceptions (blocking_codes (exception_codes_of open_exceptions))
    ++ (unless (is_some c.policy_id) policy_required
        ++ (unless (is_some (as_stamp (c.column date_of_loss))) date_of_loss_required
            ++ (unless (holds_text (as_text (c.column loss_description))) loss_description_required
                ++ unless
                    (holds_text (as_text (c.column insured_name))
                      || holds_text (claimant_name c db))
                    claimant_required)))
