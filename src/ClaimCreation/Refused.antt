-- ===== src/ClaimCreation/Refused.antt =====
-- What stands between a notification and a claim: `blockers` of `app/services/fnol/claims.py`.
use claims_workbench_be.Common.{
  Bool, true, false, not, ◌&&◌, ◌||◌, List, [], ◌∷◌, ◌++◌, keep, is_empty, is_some, ◌≡◌, ◌↔◌, refl,
  sym, ◌∙◌, ap, ◌==◌, ◌∈?◌, if◌then◌else◌, arith, Bool-cases, inl, inr, eq_cases, beq_self,
  and_true,
}
use claims_workbench_be.Enums.Intake.{ExceptionCode, exception_code_eq, FnolStatus}
use claims_workbench_be.Lifecycle.{blocking_codes, blocking_exceptions, derive_status}
use claims_workbench_be.Lifecycle.Derived.{is_active, derive_status-ready_iff}
use claims_workbench_be.Model.Case.{
  FnolCase, as_text, as_stamp, holds_text, date_of_loss, loss_description, insured_name,
}
use claims_workbench_be.Model.Rows.{FnolException}
use claims_workbench_be.Model.Db.{Db}
use claims_workbench_be.Repository.Exceptions.{list_exceptions}
use claims_workbench_be.ClaimCreation.{
  Blocker, exception_codes_of, by_code, exception_blockers, claimant_name, unless, blockers,
  open_exception, policy_required, date_of_loss_required, loss_description_required,
  claimant_required,
}

-- The codes of a case's open exceptions.
abbrev pub open_codes : FnolCase → Db → List ExceptionCode
open_codes c db = exception_codes_of (list_exceptions c.id true db)

-- The facts that a claim cannot do without.
abbrev pub has_facts : FnolCase → Db → Bool
has_facts c db =
    is_some c.policy_id
    && (is_some (as_stamp (c.column date_of_loss))
        && (holds_text (as_text (c.column loss_description))
            && (holds_text (as_text (c.column insured_name)) || holds_text (claimant_name c db))))

later_first :
    (b : Bool) (x : Blocker) (later : List Blocker)
    → is_empty (if is_empty later then (if b then x ∷ [] else []) else later)
      ≡ (not b && is_empty later)
later_first true x [] = refl
later_first true x (y ∷ ys) = refl
later_first false x [] = refl
later_first false x (y ∷ ys) = refl

not_or : (a b : Bool) → (not a && not b) ≡ not (a || b)
not_or a b = ground arith

code_sym : (c d : ExceptionCode) → (c == d) ≡ (d == c)
code_sym c d = elim (eq_cases d c) [
  | inl (t, same) ↦ ap (λ x. c == x) same ∙ (beq_self c ∙ sym t)
  | inr (n, other) ↦ elim (eq_cases c d) [
    | inl (t, same) ↦ absurd (other (sym same))
    | inr (m, _) ↦ m ∙ sym n
  ]
]

is_empty-by_code :
    (rows : List FnolException) (code : ExceptionCode)
    → is_empty (by_code rows code) ≡ not (code ∈? exception_codes_of rows)
is_empty-by_code [] code = refl
is_empty-by_code (e ∷ rest) code =
    later_first (e.code == code) (open_exception code e.message) (by_code rest code)
    ∙ (ap (λ b. not (e.code == code) && b) (is_empty-by_code rest code)
        ∙ (not_or (e.code == code) (code ∈? exception_codes_of rest)
            ∙ ap (λ b. not (b || code ∈? exception_codes_of rest)) (code_sym e.code code)))

is_empty-append : (xs ys : List Blocker) → is_empty (xs ++ ys) ≡ (is_empty xs && is_empty ys)
is_empty-append [] ys = refl
is_empty-append (x ∷ xs) ys = refl

is_empty-exception_blockers :
    (rows : List FnolException) (wanted : List ExceptionCode)
    → is_empty (exception_blockers rows (keep (λ code. code ∈? exception_codes_of rows) wanted))
      ≡ is_empty (keep (λ code. code ∈? exception_codes_of rows) wanted)
is_empty-exception_blockers rows [] = refl
is_empty-exception_blockers rows (code ∷ rest) =
    elim (Bool-cases (code ∈? exception_codes_of rows)) [
      | inl t ↦ rw t (
          is_empty-append (by_code rows code) _
          ∙ ap
              (λ b.
                b
                && is_empty
                    (exception_blockers rows (keep (λ d. d ∈? exception_codes_of rows) rest)))
              (is_empty-by_code rows code ∙ ap not t))
      | inr f ↦ rw f (is_empty-exception_blockers rows rest)
    ]

facts_quiet :
    (policy date text insured claimant : Bool)
    → is_empty (
        unless policy policy_required
        ++ (unless date date_of_loss_required
            ++ (unless text loss_description_required
                ++ unless (insured || claimant) claimant_required)))
      ≡ (policy && (date && (text && (insured || claimant))))
facts_quiet policy date text insured claimant = ground arith

is_empty_iff : (xs : List Blocker) → (xs ≡ []) ↔ (is_empty xs ≡ true)
is_empty_iff [] = (λ e. refl, λ e. refl)
is_empty_iff (x ∷ xs) = (λ e. cc, λ e. cc)

is_empty_codes_iff : (xs : List ExceptionCode) → (xs ≡ []) ↔ (is_empty xs ≡ true)
is_empty_codes_iff [] = (λ e. refl, λ e. refl)
is_empty_codes_iff (x ∷ xs) = (λ e. cc, λ e. cc)

is_empty-blockers :
    (c : FnolCase) (db : Db)
    → is_empty (blockers c db) ≡ (is_empty (blocking_codes (open_codes c db)) && has_facts c db)
unfolding blockers blocking_codes
is_empty-blockers c db =
    let rows = list_exceptions c.id true db in
    is_empty-append
      (exception_blockers rows (keep (λ code. code ∈? exception_codes_of rows) blocking_exceptions))
      _
    ∙ rw (
      is_empty-exception_blockers rows blocking_exceptions,
      facts_quiet (is_some c.policy_id) (is_some (as_stamp (c.column date_of_loss)))
          (holds_text (as_text (c.column loss_description)))
          (holds_text (as_text (c.column insured_name))) (holds_text (claimant_name c db)),
    )

-- Nothing stands between an active case and a claim exactly when the status derived from its open
-- exceptions is `ready_for_claim`, and the case has a policy, a date of loss, a description of the loss
-- and the name of an insured or a claimant.
pub blockers_iff :
    (c : FnolCase) (db : Db)
    → is_active c.status ≡ true
    → (blockers c db ≡ []) ↔ (
        (derive_status c.status (open_codes c db) false ≡ FnolStatus.ready_for_claim)
        × (has_facts c db ≡ true))
blockers_iff c db active =
    let ready = derive_status-ready_iff c.status (open_codes c db) active in
    let empty = is_empty_iff (blockers c db) in
    let no_codes = is_empty_codes_iff (blocking_codes (open_codes c db)) in
    let law = is_empty-blockers c db in
    (
      λ h.
          let (quiet, facts) =
            and_true (is_empty (blocking_codes (open_codes c db))) (has_facts c db)
              (sym law ∙ empty.0 h) in
          (ready.1 (no_codes.1 quiet), facts),
      λ h. empty.1 (law ∙ rw (no_codes.0 (ready.0 h.0), h.1)),
    )
