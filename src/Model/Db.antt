-- ===== src/Model/Db.antt =====
-- The tables, as one session sees them. A row is added at the front of its table, and `next_id` is
-- the supply of new uuids. A reference counter is keyed by prefix and year. The
-- parties stand in the order of role and name, in which they are read.
use claims_workbench_be.Common.{ℕ, List}
use claims_workbench_be.References.{Text}
use claims_workbench_be.Model.Case.{FnolCase}
use claims_workbench_be.Model.Rows.{
  FnolException, FnolExtractedField, FnolDuplicateCandidate, FnolPolicyMatch, FnolParty, AuditEvent,
}
use claims_workbench_be.Model.Claims.{Claim, ClaimTriage, ClaimAssignment, Handler}

pub record ReferenceSequence : Type 0 where
  pub prefix : Text
  pub year : ℕ
  pub last_value : ℕ

pub record Db : Type 0 where
  pub next_id : ℕ
  pub cases : List FnolCase
  pub exceptions : List FnolException
  pub fields : List FnolExtractedField
  pub duplicates : List FnolDuplicateCandidate
  pub policy_matches : List FnolPolicyMatch
  pub parties : List FnolParty
  pub claims : List Claim
  pub triages : List ClaimTriage
  pub assignments : List ClaimAssignment
  pub handlers : List Handler
  pub sequences : List ReferenceSequence
  pub audit : List AuditEvent
