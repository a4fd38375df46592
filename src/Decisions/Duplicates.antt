-- ===== src/Decisions/Duplicates.antt =====
-- The exception of a possible duplicate goes with the last undecided candidate (`resolve_duplicate` of
-- `app/services/fnol/service.py`).
use claims_workbench_be.Common.{
  ℕ, Bool, true, false, not, ◌&&◌, Option, none, some, List, [], ◌∷◌, keep, any, is_empty, String,
  nat_eq, ◌==◌, ◌≡◌, ◌≢◌, ◌↔◌, refl, sym, ◌∙◌, ap, subst, Bool-cases, inl, inr, beq_self, eq_cases,
}
use claims_workbench_be.Common.Table.{find, modify, Unique, pair_eq}
use claims_workbench_be.Common.Each.{Each}
use claims_workbench_be.Enums.Intake.{
  ExceptionCode, exception_code_eq, ExceptionStatus, DuplicateResolution, duplicate_resolution_eq,
}
use claims_workbench_be.Model.Rows.{FnolDuplicateCandidate}
use claims_workbench_be.Model.Db.{Db}
use claims_workbench_be.Repository.Exceptions.{
  exception_key, clear_exception, standing, standing-clear,
}
use claims_workbench_be.Repository.Duplicates.{
  duplicate_id, get_duplicate, list_duplicates, update_duplicate, is_unresolved,
}
use claims_workbench_be.Session.{Session}
use claims_workbench_be.Audit.{audit_fnol}
use claims_workbench_be.Decisions.{
  Decider, decided, settle, after_resolution, resolve_found, resolve_duplicate,
}

-- Whether a candidate of the case is still to be decided.
abbrev pub pending : ℕ → List FnolDuplicateCandidate → Bool
pending i rows = any (λ d. d.fnol_case_id == i && is_unresolved d) rows

module _ (id : ℕ) where
  -- A row with the id is decided.
  abbrev Settled : FnolDuplicateCandidate → Type 0
  Settled d = (d.id == id) ≡ true → is_unresolved d ≡ false

  absent-Settled :
      (rows : List FnolDuplicateCandidate) → find duplicate_id id rows ≡ none → Each Settled rows
  unfolding find
  absent-Settled [] h = tt
  absent-Settled (r ∷ rows) h = elim (Bool-cases (r.id == id)) [
    | inl t ↦ let no : some r ≡ none = rw t at h in absurd cc
    | inr n ↦ (λ e. let no : true ≡ false = sym e ∙ n in absurd cc, absent-Settled rows (rw n at h))
  ]

  modify-Settled :
      (f : FnolDuplicateCandidate → FnolDuplicateCandidate)
      → ((d : FnolDuplicateCandidate) → is_unresolved (f d) ≡ false)
      → (rows : List FnolDuplicateCandidate) → Unique duplicate_id rows
      → Each Settled (modify duplicate_id id f rows)
  unfolding modify
  modify-Settled f h [] u = tt
  modify-Settled f h (r ∷ rows) (alone, u) = elim (eq_cases r.id id) [
    | inl (t, same) ↦
        rw t
          (λ e. h r, absent-Settled rows (subst (λ j. find duplicate_id j rows ≡ none) same alone))
    | inr (n, _) ↦
        rw n (λ e. let no : true ≡ false = sym e ∙ n in absurd cc, modify-Settled f h rows u)
  ]

  -- The other candidates that are outstanding are all that are pending.
  outstanding-pending :
      (i : ℕ) (rows : List FnolDuplicateCandidate)
      → Each Settled rows
      → is_empty
          (keep (λ d. not (d.id == id) && is_unresolved d) (keep (λ d. d.fnol_case_id == i) rows))
        ≡ not (pending i rows)
  outstanding-pending i [] h = refl
  outstanding-pending i (r ∷ rows) (now, later) =
      let rest = outstanding-pending i rows later in
      elim (Bool-cases (r.fnol_case_id == i)) [
        | inr f ↦ rw f rest
        | inl t ↦ elim (Bool-cases (r.id == id)) [
          | inl y ↦ rw (t, y) (rw (now y) rest)
          | inr z ↦ elim (Bool-cases (is_unresolved r)) [
            | inl w ↦ rw (t, z) (rw w refl)
            | inr w ↦ rw (t, z) (rw w rest)
          ]
        ]
      ]

decided-resolved :
    (resolution : DuplicateResolution) (remark : Option String) (o : Decider)
    (d : FnolDuplicateCandidate)
    → resolution ≢ DuplicateResolution.unresolved
    → is_unresolved (decided resolution remark o d) ≡ false
decided-resolved DuplicateResolution.unresolved remark o d n = absurd (n refl)
decided-resolved DuplicateResolution.new_claim remark o d n = refl
decided-resolved DuplicateResolution.linked remark o d n = refl
decided-resolved DuplicateResolution.duplicate remark o d n = refl

-- How the exception of a possible duplicate stands for a case.
abbrev pub suspicion : ℕ → Db → Option ExceptionStatus
suspicion i db = standing i ExceptionCode.possible_duplicate db

-- What a resolution other than `duplicate` leaves, when the exception was open.
abbrev pub Resolved : Session → Session → Type 0
Resolved s s' =
    (s'.case ≡ s.case)
    × ((suspicion s.case.id s'.db ≡ none) ↔ (pending s.case.id s'.db.duplicates ≡ false))

stays-Resolved :
    (s : Session)
    → pending s.case.id s.db.duplicates ≡ true
    → suspicion s.case.id s.db ≡ some ExceptionStatus.«open»
    → Resolved s s
stays-Resolved s t h = (
  refl,
  (
    λ e. let no : some ExceptionStatus.«open» ≡ none = sym h ∙ e in absurd cc,
    λ e. let no : true ≡ false = sym t ∙ e in absurd cc,
  ),
)

clears-Resolved :
    (s : Session)
    → pending s.case.id s.db.duplicates ≡ false
    → Unique exception_key s.db.exceptions
    → suspicion s.case.id s.db ≡ some ExceptionStatus.«open»
    → Resolved s (record s { db = clear_exception s.case.id ExceptionCode.possible_duplicate s.db })
unfolding clear_exception
clears-Resolved s f u h =
    let i = s.case.id in
    let c = ExceptionCode.possible_duplicate in
    let gone : suspicion i (clear_exception i c s.db) ≡ none =
      standing-clear i c s.db i c u ∙ rw (beq_self i) (rw h refl) in
    (refl, (λ e. f, λ e. gone))

settle-Resolved :
    (id : ℕ) (s : Session)
    → Each (Settled id) s.db.duplicates
    → Unique exception_key s.db.exceptions
    → suspicion s.case.id s.db ≡ some ExceptionStatus.«open»
    → Resolved s (settle id s)
unfolding list_duplicates
settle-Resolved id s each u h =
    let same = outstanding-pending id s.case.id s.db.duplicates each in
    elim (Bool-cases (pending s.case.id s.db.duplicates)) [
      | inl t ↦ rw (same ∙ ap not t) (stays-Resolved s t h)
      | inr f ↦ rw (same ∙ ap not f) (clears-Resolved s f u h)
    ]

after_resolution-settle :
    (resolution : DuplicateResolution) (id : ℕ) (s : Session)
    → resolution ≢ DuplicateResolution.duplicate
    → after_resolution resolution id s ≡ settle id s
after_resolution-settle DuplicateResolution.duplicate id s n = absurd (n refl)
after_resolution-settle DuplicateResolution.unresolved id s n = refl
after_resolution-settle DuplicateResolution.new_claim id s n = refl
after_resolution-settle DuplicateResolution.linked id s n = refl

abbrev ResolvedBy : Session → Option Session → Type 0
ResolvedBy s none = Unit {0}
ResolvedBy s (some t) = Resolved s t

-- When an officer decides that a candidate is a new claim or a linked one, and the exception of a
-- possible duplicate is open, the case stays as it is, and the exception is gone exactly when no
-- candidate of the case is left undecided.
pub resolve_duplicate-Resolved :
    (id : ℕ) (resolution : DuplicateResolution) (remark : Option String) (o : Decider)
    (s s' : Session)
    → resolution ≢ DuplicateResolution.duplicate
    → resolution ≢ DuplicateResolution.unresolved
    → Unique duplicate_id s.db.duplicates
    → Unique exception_key s.db.exceptions
    → suspicion s.case.id s.db ≡ some ExceptionStatus.«open»
    → resolve_duplicate id resolution remark o s ≡ some s'
    → Resolved s s'
unfolding resolve_duplicate update_duplicate audit_fnol
resolve_duplicate-Resolved id resolution remark o s s' n m ud ue h e =
    subst (ResolvedBy s) e (found (get_duplicate id s.db))
  where
    stored : Session
    stored = record s { db = update_duplicate id (decided resolution remark o) s.db }

    done : Resolved s (after_resolution resolution id stored)
    done = subst (Resolved s) (sym (after_resolution-settle resolution id stored n)) (
        settle-Resolved id stored
          (modify-Settled id (decided resolution remark o)
            (λ d. decided-resolved resolution remark o d m) s.db.duplicates ud)
          ue h)

    found :
        (row : Option FnolDuplicateCandidate)
        → ResolvedBy s (resolve_found id resolution remark o s row)
    found none = tt
    found (some d) = elim (Bool-cases (d.fnol_case_id == s.case.id)) [
      | inl t ↦ rw t done
      | inr f ↦ rw f tt
    ]
