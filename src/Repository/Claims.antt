-- ===== src/Repository/Claims.antt =====
-- The tables of `app/repositories/claim.py` and `app/repositories/handler.py`. A handler table is
-- listed by name, as `list_available` orders it.
use claims_workbench_be.Common.{ℕ, ◌+◌, Option, List, keep, nat_eq}
use claims_workbench_be.Common.Table.{find, modify}
use claims_workbench_be.Model.Claims.{Claim, ClaimTriage, ClaimAssignment, Handler}
use claims_workbench_be.Model.Db.{Db}

abbrev pub claim_key : Claim → ℕ
claim_key c = c.id

-- `uq` on `fnol_case_id`
abbrev pub fnol_key : Claim → ℕ
fnol_key c = c.fnol_case_id

abbrev pub triage_key : ClaimTriage → ℕ
triage_key t = t.claim_id

abbrev pub assignment_key : ClaimAssignment → ℕ
assignment_key a = a.claim_id

abbrev pub handler_key : Handler → ℕ
handler_key h = h.id

unfoldable pub get_claim : ℕ → Db → Option Claim
get_claim id db = find claim_key id db.claims

unfoldable pub get_by_fnol : ℕ → Db → Option Claim
get_by_fnol case_id db = find fnol_key case_id db.claims

unfoldable pub get_triage : ℕ → Db → Option ClaimTriage
get_triage claim_id db = find triage_key claim_id db.triages

unfoldable pub get_assignment : ℕ → Db → Option ClaimAssignment
get_assignment claim_id db = find assignment_key claim_id db.assignments

unfoldable pub get_handler : ℕ → Db → Option Handler
get_handler id db = find handler_key id db.handlers

unfoldable pub list_available : Db → List Handler
list_available db = keep (λ h. h.active) db.handlers

unfoldable pub increment_workload : ℕ → ℕ → Db → Db
increment_workload id delta db = record db {
  handlers =
      modify handler_key id (λ (h : Handler). record h { open_claims = h.open_claims + delta })
        db.handlers;
}

unfoldable pub update_claim : ℕ → (Claim → Claim) → Db → Db
update_claim id f db = record db { claims = modify claim_key id f db.claims }
