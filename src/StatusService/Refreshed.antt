-- ===== src/StatusService/Refreshed.antt =====
-- What `refresh_status` and `transition` of `app/services/fnol/service.py` leave.
use claims_workbench_be.Common.{
  Bool, true, false, Option, none, some, String, ◌≡◌, refl, sym, ◌∙◌, ap, nat_eq, ◌==◌, beq_self,
  Bool-cases, inl, inr, eq_cases,
}
use mathlib.Core.Option
use claims_workbench_be.Common.Table.{find, find-modify_self}
use claims_workbench_be.Enums.Intake.{FnolStatus, fnol_status_eq}
use claims_workbench_be.Lifecycle.{is_terminal, can_transition, derive_status}
use claims_workbench_be.Lifecycle.Transitions.{move, here, terminal-Moves}
use claims_workbench_be.Lifecycle.Derived.{derive_status_idem}
use claims_workbench_be.Model.Case.{FnolCase}
use claims_workbench_be.Model.Db.{Db}
use claims_workbench_be.Repository.Cases.{case_id, get_case, update_case}
use claims_workbench_be.Repository.Exceptions.{list_exceptions}
use claims_workbench_be.Audit.{record_event}
use claims_workbench_be.StatusService.{
  with_status, open_codes, moved_to, refresh_status, transition,
}

pub open_codes-moved_to :
    (c : FnolCase) (s : FnolStatus) (b : Bool) (db : Db)
    → open_codes (with_status s c) (moved_to c s b db) ≡ open_codes c db
unfolding open_codes list_exceptions update_case record_event
open_codes-moved_to c s true db = refl
open_codes-moved_to c s false db = refl

get_case-moved_to :
    (c : FnolCase) (s : FnolStatus) (db : Db)
    → get_case c.id db ≡ some c
    → get_case c.id (moved_to c s (s == c.status) db) ≡ some (with_status s c)
unfolding get_case update_case record_event
get_case-moved_to c s db h = elim (eq_cases s c.status) [
  | inl (t, same) ↦ rw t (h ∙ ap (λ s. some (with_status s c)) (sym same))
  | inr (n, _) ↦ rw n (
      find-modify_self case_id c.id (with_status s) db.cases (λ _. refl)
      ∙ ap (Option.map (with_status s)) h)
]

-- Refreshing the status stores on the case the status derived from its open exceptions, and refreshing
-- again, with nothing done between, gives the same status and neither writes nor adds an event.
pub refresh_status_lem :
    (c : FnolCase) (db : Db)
    → get_case c.id db ≡ some c
    → let (s, db') = refresh_status c db in
      (s ≡ derive_status c.status (open_codes c db) false)
      × (get_case c.id db' ≡ some (with_status s c))
      × (refresh_status (with_status s c) db' ≡ (s, db'))
unfolding refresh_status
refresh_status_lem c db h =
    let s = derive_status c.status (open_codes c db) false in
    let db' = moved_to c s (s == c.status) db in
    let again : derive_status s (open_codes (with_status s c) db') false ≡ s =
      ap (λ codes. derive_status s codes false) (open_codes-moved_to c s (s == c.status) db)
      ∙ derive_status_idem c.status (open_codes c db) false in
    (
      refl,
      get_case-moved_to c s db h,
      ap (λ t. (t, moved_to (with_status s c) t (t == s) db')) again ∙ rw (beq_self s),
    )

get_case-set_status :
    (c : FnolCase) (target : FnolStatus) (actor : String) (reason : Option String) (db db' : Db)
    → can_transition c.status target ≡ true
    → transition c target actor reason db ≡ some db'
    → get_case c.id db ≡ some c
    → get_case c.id db' ≡ some (with_status target c)
unfolding transition get_case update_case record_event
get_case-set_status c target actor reason db db' t e h =
    let stored = rw t at e in
    ap (λ (o : Option Db). elim o [ none ↦ none | some d ↦ find case_id c.id d.cases ]) (sym stored)
    ∙ (find-modify_self case_id c.id (with_status target) db.cases (λ _. refl)
        ∙ ap (Option.map (with_status target)) h)

transition_conflict :
    (c : FnolCase) (target : FnolStatus) (actor : String) (reason : Option String) (db : Db)
    → can_transition c.status target ≡ false
    → transition c target actor reason db ≡ none
unfolding transition
transition_conflict c target actor reason db f = rw f

-- An officer's request to move a case that is claimed, rejected or cancelled either is refused or leaves
-- the case as it was.
pub transition-terminal :
    (c : FnolCase) (target : FnolStatus) (actor : String) (reason : Option String) (db db' : Db)
    → is_terminal c.status ≡ true
    → get_case c.id db ≡ some c
    → transition c target actor reason db ≡ some db'
    → get_case c.id db' ≡ some c
transition-terminal c target actor reason db db' stuck h e =
    elim (Bool-cases (can_transition c.status target)) [
      | inl t ↦
          get_case-set_status c target actor reason db db' t e h
          ∙ ap (λ s. some (with_status s c)) (sym (terminal-Moves stuck (move t here)))
      | inr f ↦
          let no : none ≡ some db' = sym (transition_conflict c target actor reason db f) ∙ e in cc
    ]
