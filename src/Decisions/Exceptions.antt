-- ===== src/Decisions/Exceptions.antt =====
-- An exception is resolved once (`resolve_exception` of `app/services/fnol/service.py`).
use claims_workbench_be.Common.{
  ℕ, Bool, true, false, Option, none, some, List, String, nat_eq, ◌==◌, ◌≡◌, ◌≢◌, refl, sym, ◌∙◌,
  ap, subst, Bool-cases, inl, inr, eq_cases,
}
use mathlib.Core.Option
use claims_workbench_be.Common.Table.{find, modify, find-modify_self, find-key}
use claims_workbench_be.Enums.Intake.{
  FnolStatus, fnol_status_eq, ExceptionStatus, exception_status_eq,
}
use claims_workbench_be.Lifecycle.{derive_status}
use claims_workbench_be.Model.Case.{FnolCase}
use claims_workbench_be.Model.Rows.{FnolException}
use claims_workbench_be.Model.Db.{Db}
use claims_workbench_be.Repository.Cases.{update_case}
use claims_workbench_be.Session.{Session}
use claims_workbench_be.Audit.{audit_fnol, record_event}
use claims_workbench_be.StatusService.{open_codes, moved_to, refresh_status}
use claims_workbench_be.StatusService.Refreshed.{open_codes-moved_to}
use claims_workbench_be.Decisions.{
  Decider, ExceptionResolution, not_found, already_decided, resolved, exception_id,
  decided_exception, refreshed, resolve_open, decided_session, resolve_exception_found,
  resolve_exception,
}

exceptions-moved_to :
    (c : FnolCase) (status : FnolStatus) (stays : Bool) (db : Db)
    → (moved_to c status stays db).exceptions ≡ db.exceptions
unfolding update_case record_event
exceptions-moved_to c status true db = refl
exceptions-moved_to c status false db = refl

exceptions-refreshed : (s : Session) → (refreshed s).db.exceptions ≡ s.db.exceptions
unfolding refresh_status
exceptions-refreshed s = exceptions-moved_to s.case _ _ s.db

-- What a resolution leaves: the decision, the status that the open exceptions call for, and that nobody
-- can decide again.
abbrev pub Final : ℕ → ExceptionStatus → String → Session → Session → Type 0
Final id status actor s s' =
    ((e : FnolException) × (find exception_id id s'.db.exceptions ≡ some e)
      × (e.status ≡ status)
      × (e.resolved_by ≡ some actor))
    × (s'.case.status ≡ derive_status s.case.status (open_codes s.case s'.db) false)
    × ((again : ExceptionStatus) (remark : Option String) (o : Decider)
        → resolve_exception id again remark o s' ≡ already_decided)

not_open :
    (status : ExceptionStatus)
    → status ≢ ExceptionStatus.«open»
    → (status == ExceptionStatus.«open») ≡ false
not_open status n = elim (eq_cases status ExceptionStatus.«open») [
  | inl (_, same) ↦ absurd (n same)
  | inr (f, _) ↦ f
]

-- A row that is decided is not decided again.
refused_again :
    (id : ℕ) (s : Session) (e : FnolException)
    → find exception_id id s.db.exceptions ≡ some e
    → (e.fnol_case_id == s.case.id) ≡ true
    → e.status ≢ ExceptionStatus.«open»
    → (again : ExceptionStatus) (remark : Option String) (o : Decider)
    → resolve_exception id again remark o s ≡ already_decided
unfolding resolve_exception
refused_again id s e h own n again remark o =
    ap (resolve_exception_found again remark o s) h ∙ rw own (rw (not_open e.status n) refl)

stored_row :
    (id : ℕ) (f : FnolException → FnolException) (rows : List FnolException) (e : FnolException)
    → ((r : FnolException) → (f r).id ≡ r.id)
    → find exception_id id rows ≡ some e
    → find exception_id id (modify exception_id e.id f rows) ≡ some (f e)
stored_row id f rows e law h =
    ap (λ k. find exception_id id (modify exception_id k f rows)) (find-key exception_id id rows h)
    ∙ (find-modify_self exception_id id f rows law ∙ ap (Option.map f) h)

resolve_open-Final :
    (id : ℕ) (status : ExceptionStatus) (remark : Option String) (o : Decider) (e : FnolException)
    (s : Session)
    → status ≢ ExceptionStatus.«open»
    → find exception_id id s.db.exceptions ≡ some e
    → (e.fnol_case_id == s.case.id) ≡ true
    → Final id status o.actor s (resolve_open status remark o e s)
unfolding audit_fnol record_event refresh_status
resolve_open-Final id status remark o e s n h own =
    let decide = decided_exception status remark o in
    let last = resolve_open status remark o e s in
    let db = (decided_session status remark o e s).db in
    let row : find exception_id id last.db.exceptions ≡ some (decide e) =
      ap (find exception_id id) (exceptions-refreshed (decided_session status remark o e s))
      ∙ stored_row id decide s.db.exceptions e (λ r. refl) h in
    (
      (decide e, row, refl, refl),
      ap (λ codes. derive_status s.case.status codes false)
          (sym
            (open_codes-moved_to s.case last.case.status (last.case.status == s.case.status) db)),
      refused_again id last (decide e) row own n,
    )

abbrev FinalBy : ℕ → ExceptionStatus → String → Session → ExceptionResolution → Type 0
FinalBy id status actor s not_found = Unit {0}
FinalBy id status actor s already_decided = Unit {0}
FinalBy id status actor s (resolved s') = Final id status actor s s'

-- When an exception is resolved or dismissed, its row has the decision and the name of who made it, the
-- status of the case is the one derived from the exceptions that are still open, and any later attempt
-- to decide the exception is refused as a conflict.
pub resolve_exception-Final :
    (id : ℕ) (status : ExceptionStatus) (remark : Option String) (o : Decider) (s s' : Session)
    → status ≢ ExceptionStatus.«open»
    → resolve_exception id status remark o s ≡ resolved s'
    → Final id status o.actor s s'
unfolding resolve_exception
resolve_exception-Final id status remark o s s' n e =
    subst (FinalBy id status o.actor s) e (found (find exception_id id s.db.exceptions) refl)
  where
    found :
        (row : Option FnolException)
        → find exception_id id s.db.exceptions ≡ row
        → FinalBy id status o.actor s (resolve_exception_found status remark o s row)
    found none h = tt
    found (some r) h = elim (Bool-cases (r.fnol_case_id == s.case.id)) [
      | inr f ↦ rw f tt
      | inl t ↦ elim (Bool-cases (r.status == ExceptionStatus.«open»)) [
        | inr f ↦ rw t (rw f tt)
        | inl y ↦ rw t (rw y (resolve_open-Final id status remark o r s n h t))
      ]
    ]
