-- ===== src/Examples/Claims.antt =====
-- The theorems on triage, assignment and the creation of claims, applied.
use claims_workbench_be.Common.{
  ℕ, ◌+◌, ◌<◌, List, some_or, true, false, not, ◌&&◌, ◌||◌, ◌≡◌, refl, ◌≢◌, ◌↔◌, ◌⊎◌, none, some,
  or_else, [], ◌∷◌, ◌∈?◌, if◌then◌else◌, nat_eq,
}
use mathlib.Core.Option
use claims_workbench_be.Common.Table.{find, Unique}
use claims_workbench_be.Model.Case.{FnolCase}
use claims_workbench_be.Enums.Intake.{FnolStatus, fnol_status_eq}
use claims_workbench_be.Enums.Assessment.{Severity, severity_eq}
use claims_workbench_be.Enums.Claims.{
  TriageCategory, triage_category_eq, Priority, AssignmentStrategy, AssignmentStatus, ClaimStatus,
}
use claims_workbench_be.References.{Text, claim_prefix, format_reference}
use claims_workbench_be.Lifecycle.{is_terminal, derive_status, blocking_codes}
use claims_workbench_be.Model.Claims.{Claim, ClaimTriage, ClaimAssignment, Handler}
use claims_workbench_be.Repository.Cases.{get_case}
use claims_workbench_be.Repository.Claims.{
  fnol_key, get_claim, get_by_fnol, get_triage, get_assignment, get_handler,
}
use claims_workbench_be.Repository.Exceptions.{list_exceptions}
use claims_workbench_be.Repository.Sequences.{last_reference, next_reference}
use claims_workbench_be.Repository.Issued.{issue_all, next_reference-Distinct}
use claims_workbench_be.Triage.{severity_is}
use claims_workbench_be.Triage.Classify.{triage, is_suspect, is_litigious, is_complex}
use claims_workbench_be.Triage.Routing.{
  desk_for, holds, urgency, is_major, is_special, route-triage, categories-triage, priority-triage,
}
use claims_workbench_be.Triage.Handlers.{is_eligible, score_handler, recommend_assignment}
use claims_workbench_be.Triage.Best.{Outcome, qualifies, recommend_assignment_lem}
use claims_workbench_be.Triage.{siu}
use claims_workbench_be.TriageService.{is_overridden, override}
use claims_workbench_be.TriageService.Overridden.{run_all, run_all-override}
use claims_workbench_be.TriageService.Assignment.{owned_by, target_handler, assign, recommend}
use claims_workbench_be.TriageService.Owned.{assign_lem, recommend-assign}
use claims_workbench_be.ClaimCreation.{list_parties, claimant_name, blockers}
use claims_workbench_be.ClaimCreation.Create.{created_claim, existing_claim, create}
use claims_workbench_be.ClaimCreation.Refused.{open_codes, has_facts, blockers_iff}
use claims_workbench_be.ClaimCreation.Once.{
  Converted, MayCreate, create-Converted, create-create, create_cases, create-Unique,
}
use claims_workbench_be.Examples.Fixtures.{notice, desk}
use claims_workbench_be.Examples.Desk.{
  plain_strings, marine_loss, handler, handlers, claim, triage_row, assignment_row, claims_desk,
  first_request, second_request,
}

abbrev other_calls : List (Text × ℕ)
other_calls = (claim_prefix, 2025) ∷ (claim_prefix, 2026) ∷ []

next_reference-Distinct_example :
    let (first, db1) = next_reference claim_prefix 2026 desk in
    let (second, db2) = next_reference claim_prefix 2026 (issue_all other_calls db1) in
    (first ≡ format_reference claim_prefix 2026 (last_reference claim_prefix 2026 desk + 1))
    × (first ≢ second)
next_reference-Distinct_example = next_reference-Distinct claim_prefix 2026 other_calls desk

route-triage_example :
    (triage plain_strings 5000 marine_loss).route
    ≡ desk_for
        (is_suspect plain_strings 5000 marine_loss)
        (is_litigious plain_strings 5000 marine_loss)
        (is_major plain_strings 5000 marine_loss)
        false
        (is_special plain_strings 5000 marine_loss)
        (is_complex plain_strings 5000 marine_loss)
route-triage_example = route-triage plain_strings 5000 marine_loss

categories-triage_example :
    (TriageCategory.major_loss ∈? (triage plain_strings 5000 marine_loss).categories)
    ≡ holds
        (is_suspect plain_strings 5000 marine_loss)
        (is_litigious plain_strings 5000 marine_loss)
        (is_major plain_strings 5000 marine_loss)
        false
        (is_special plain_strings 5000 marine_loss)
        (is_complex plain_strings 5000 marine_loss)
        TriageCategory.major_loss
categories-triage_example =
    categories-triage plain_strings 5000 marine_loss TriageCategory.major_loss

priority-triage_example :
    (triage plain_strings 5000 marine_loss).priority
    ≡ urgency
        (severity_is (some Severity.critical) Severity.critical
          || is_major plain_strings 5000 marine_loss)
        (severity_is (some Severity.critical) Severity.high
          || (is_suspect plain_strings 5000 marine_loss
              || (is_litigious plain_strings 5000 marine_loss || false)))
        (severity_is (some Severity.critical) Severity.medium
          || (is_complex plain_strings 5000 marine_loss
              && not (
                  is_suspect plain_strings 5000 marine_loss
                  || (is_litigious plain_strings 5000 marine_loss
                      || (is_major plain_strings 5000 marine_loss
                          || (false || is_special plain_strings 5000 marine_loss))))))
priority-triage_example = priority-triage plain_strings 5000 marine_loss

recommend_assignment_lem_example :
    let r = recommend_assignment (λ s. s) siu (some Severity.high) none none handlers in
    let f = score_handler (λ s. s) siu (some Severity.high) none none in
    Outcome f handlers r.handler
    × ((w : Handler) → is_eligible (f w) ≡ qualifies (λ s. s) siu (some Severity.high) w)
    × ((r.strategy ≡ AssignmentStrategy.queue) ↔ (r.handler ≡ none))
recommend_assignment_lem_example =
    recommend_assignment_lem (λ s. s) siu (some Severity.high) none none handlers

desk_triage : get_triage 20 claims_desk ≡ some triage_row
unfolding get_triage find
desk_triage = refl

desk_assignment : get_assignment 20 claims_desk ≡ some assignment_row
unfolding get_assignment find
desk_assignment = refl

desk_handler :
    target_handler (or_else none (some 2)) claims_desk
    ≡ some (handler 2 true 3 ("fraud_investigation" ∷ []))
unfolding get_handler find
desk_handler = refl

desk_untriaged : is_overridden (get_triage 20 desk) ≡ false
unfolding get_triage find
desk_untriaged = refl

-- Two runs of the claim and one of another.
abbrev later_runs : List (Claim × FnolCase)
later_runs = (claim, notice) ∷ (record claim { id = 21 }, notice) ∷ (claim, notice) ∷ []

run_all-override_example :
    let db' =
      run_all plain_strings 5000 later_runs
        (override 20 "siu" "SIU desk" Priority.urgent "Tip" "m.manager" claims_desk).1 in
    (row : ClaimTriage) × (get_triage 20 db' ≡ some row)
    × (row.overridden ≡ true)
    × (row.recommended_route_key ≡ "siu")
    × (row.recommended_route ≡ "SIU desk")
    × (row.recommended_priority ≡ Priority.urgent)
    × (row.overridden_by ≡ some "m.manager")
    × (row.override_reason ≡ some "Tip")
    × (row.original_route ≡ (
        if triage_row.overridden
        then triage_row.original_route
        else some triage_row.recommended_route))
    × (get_claim 20 db'
        ≡ Option.map
            (λ (claim : Claim). record claim { priority = Priority.urgent })
            (get_claim 20 claims_desk))
run_all-override_example =
    run_all-override plain_strings 5000 20 "siu" "SIU desk" Priority.urgent "Tip" "m.manager"
      claims_desk triage_row later_runs desk_triage

abbrev second : Handler
second = handler 2 true 3 ("fraud_investigation" ∷ [])

desk_owned : get_claim 20 claims_desk ≡ some claim
unfolding get_claim find
desk_owned = refl

assign_lem_example :
    let (result, db') = assign 20 none "m.manager" 900 claims_desk in
    ((b : ClaimAssignment) × (result ≡ some b)
      × (get_assignment 20 db' ≡ some b)
      × (b.status ≡ AssignmentStatus.assigned)
      × (b.handler_id ≡ some 2)
      × (b.handler_name ≡ some second.full_name)
      × (b.team ≡ some second.team)
      × (b.assigned_by ≡ some "m.manager")
      × (b.assigned_at ≡ some 900))
    × ((k' : Claim) × (get_claim 20 db' ≡ some k')
        × (k'.status ≡ ClaimStatus.in_review)
        × (k'.handler_name ≡ some second.full_name)
        × (k'.reserve_minor ≡ claim.reserve_minor)
        × (k'.priority ≡ claim.priority)
        × (let limit = some_or second.authority_limit_minor 0 in
            (k'.over_authority ≡ true) ↔ (
              ((0 < limit) × (limit < claim.reserve_minor))
              ⊎ ((claim.over_authority ≡ true) × ((limit ≡ 0) ⊎ (claim.reserve_minor ≡ 0))))))
    × ((w : Handler) × (get_handler 2 db' ≡ some w) × (w.open_claims ≡ second.open_claims + 1))
    × ((j : ℕ)
        → j ≢ 20
        → (get_claim j db' ≡ get_claim j claims_desk)
          × (get_assignment j db' ≡ get_assignment j claims_desk))
    × ((j : ℕ) → j ≢ 2 → get_handler j db' ≡ get_handler j claims_desk)
assign_lem_example =
    assign_lem 20 none "m.manager" 900 claims_desk assignment_row second claim desk_assignment
      desk_handler desk_owned

recommend-assign_example :
    let db1 = (assign 20 none "m.manager" 900 claims_desk).1 in
    let (row, db2) = recommend (λ s. s) claim triage_row db1 in
    (row ≡ owned_by second none "m.manager" 900 assignment_row) × (get_assignment 20 db2 ≡ some row)
recommend-assign_example =
    recommend-assign (λ s. s) claim triage_row none "m.manager" 900 claims_desk assignment_row
      second desk_assignment desk_handler

review_active : is_terminal FnolStatus.needs_review ≡ false
unfolding is_terminal
review_active = refl

blockers_iff_example : (blockers notice desk ≡ []) ↔ (
    (derive_status FnolStatus.needs_review (open_codes notice desk) false
      ≡ FnolStatus.ready_for_claim)
    × (has_facts notice desk ≡ true))
unfolding is_terminal
blockers_iff_example = blockers_iff notice desk refl

desk_case : get_case 1 desk ≡ some notice
unfolding get_case find
desk_case = refl

desk_claim : get_by_fnol 1 desk ≡ none
unfolding get_by_fnol find
desk_claim = refl

desk_ready : blockers notice desk ≡ []
unfolding blockers list_exceptions claimant_name list_parties blocking_codes
desk_ready = refl

create-Converted_example :
    let (result, db') = create plain_strings 5000 1 first_request desk in
    Converted plain_strings 5000 1 notice desk result db'
create-Converted_example =
    create-Converted plain_strings 5000 1 first_request desk notice desk_case desk_claim refl
      desk_ready

create-create_example :
    let (result, db') = create plain_strings 5000 1 first_request desk in
    (k : Claim) × (result ≡ created_claim k)
    × (create plain_strings 5000 1 second_request db' ≡ (existing_claim k, db'))
create-create_example =
    create-create plain_strings 5000 1 first_request second_request desk notice desk_case desk_claim
      refl desk_ready

create_cases_example :
    ((create plain_strings 5000 1 first_request claims_desk).1 ≡ claims_desk)
    ⊎ MayCreate plain_strings 5000 1 claims_desk
create_cases_example = create_cases plain_strings 5000 1 first_request claims_desk

create-Unique_example : Unique fnol_key (create plain_strings 5000 1 first_request desk).1.claims
create-Unique_example = create-Unique plain_strings 5000 1 first_request desk tt
