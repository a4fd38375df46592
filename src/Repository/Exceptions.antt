-- ===== src/Repository/Exceptions.antt =====
-- The exception table of `app/repositories/fnol.py`: `get_exception_by_code`, `list_exceptions`,
-- `upsert_exception` and `clear_exception`. The order of `list_exceptions` is not kept.
use claims_workbench_be.Common.{
  ℕ, ◌+◌, Bool, ◌&&◌, ◌||◌, not, List, Option, none, some, ◌≡◌, refl, ◌==◌, if◌then◌else◌, keep,
  nat_eq, some_or, arith, inl, inr, Bool-cases, ap,
}
use mathlib.Core.Option
use claims_workbench_be.Common.Table.{
  find, Unique, delete_when, dropped, find-delete_when, delete_when-Unique, upsert, upserted,
  find-upsert, upsert-Unique, Unique, pair_eq,
}
use claims_workbench_be.Enums.Intake.{
  ExceptionCode, exception_code_eq, ExceptionSeverity, ExceptionStatus, exception_status_eq,
}
use claims_workbench_be.Model.Rows.{FnolException, Message}
use claims_workbench_be.Model.Db.{Db}

-- `uq_fnol_exception_code`
abbrev pub exception_key : FnolException → ℕ × ExceptionCode
exception_key e = (e.fnol_case_id, e.code)

unfoldable pub get_exception_by_code : ℕ → ExceptionCode → Db → Option FnolException
get_exception_by_code case_id code db = find exception_key (case_id, code) db.exceptions

unfoldable pub list_exceptions : ℕ → Bool → Db → List FnolException
list_exceptions case_id only_open db =
    keep (λ e. e.fnol_case_id == case_id && (not only_open || e.status == ExceptionStatus.«open»))
      db.exceptions

-- The columns that `upsert_exception` writes on a row that is there.
abbrev pub refresh_exception : ExceptionSeverity → Message → Bool → FnolException → FnolException
refresh_exception severity message blocking e = record e {
  severity = severity;
  message = message;
  blocking = blocking;
}

abbrev pub new_exception :
    ℕ → ℕ → ExceptionCode → ExceptionSeverity → Message → Bool → FnolException
new_exception id case_id code severity message blocking = record {
  id = id;
  fnol_case_id = case_id;
  code = code;
  severity = severity;
  message = message;
  blocking = blocking;
  status = ExceptionStatus.«open»;
  resolution_note = none;
  resolved_by = none;
  resolved_at = none;
}

-- The supply of ids moves on whether or not a row is added.
unfoldable pub upsert_exception : ℕ → ExceptionCode → ExceptionSeverity → Message → Bool → Db → Db
upsert_exception case_id code severity message blocking db = record db {
  next_id = db.next_id + 1;
  exceptions =
      upsert exception_key (case_id, code)
        (new_exception db.next_id case_id code severity message blocking)
        (refresh_exception severity message blocking) db.exceptions;
}

-- An exception that is still open is deleted.
unfoldable pub clear_exception : ℕ → ExceptionCode → Db → Db
clear_exception case_id code db = record db {
  exceptions =
      delete_when exception_key (case_id, code) (λ e. e.status == ExceptionStatus.«open»)
        db.exceptions;
}

-- How an exception of a case stands: `none` if there is no row.
abbrev pub standing : ℕ → ExceptionCode → Db → Option ExceptionStatus
standing case_id code db =
    Option.map (λ (e : FnolException). e.status) (find exception_key (case_id, code) db.exceptions)

-- What clearing does to a standing.
abbrev pub cleared : Option ExceptionStatus → Option ExceptionStatus
cleared (some ExceptionStatus.«open») = none
cleared s = s

abbrev pub same_key : ℕ → ExceptionCode → ℕ → ExceptionCode → Bool
same_key i c j d = i == j && c == d

-- What raising does to a standing.
abbrev pub raised_standing : Option ExceptionStatus → Option ExceptionStatus
raised_standing s = some (some_or s ExceptionStatus.«open»)

upserted_standing :
    (id i : ℕ) (c : ExceptionCode) (s : ExceptionSeverity) (m : Message) (b : Bool)
    (row : Option FnolException)
    → (upserted exception_key (new_exception id i c s m b) (refresh_exception s m b) row).status
      ≡ some_or (Option.map (λ (e : FnolException). e.status) row) ExceptionStatus.«open»
upserted_standing id i c s m b none = refl
upserted_standing id i c s m b (some r) = refl

-- Raising an exception opens it if it has no row and leaves the standing of its row otherwise, so
-- that a resolved or dismissed exception is not reopened. No other standing changes.
pub standing-upsert :
    (i : ℕ) (c : ExceptionCode) (s : ExceptionSeverity) (m : Message) (b : Bool) (db : Db) (j : ℕ)
    (d : ExceptionCode)
    → standing j d (upsert_exception i c s m b db)
      ≡ (if same_key i c j d then raised_standing (standing i c db) else standing j d db)
unfolding upsert_exception
standing-upsert i c s m b db j d =
    rw
      (find-upsert exception_key (j, d) (i, c) (new_exception db.next_id i c s m b)
        (refresh_exception s m b) db.exceptions refl (λ r. refl))
      (elim (Bool-cases (same_key i c j d)) [
        | inl t ↦ rw t (
            ap some
              (upserted_standing db.next_id i c s m b (find exception_key (i, c) db.exceptions)))
        | inr f ↦ rw f
      ])

dropped_standing :
    (row : Option FnolException)
    → Option.map
        (λ (e : FnolException). e.status)
        (dropped exception_key (λ e. e.status == ExceptionStatus.«open») row)
      ≡ cleared (Option.map (λ (e : FnolException). e.status) row)
dropped_standing none = refl
dropped_standing (some r) = ground arith

-- Clearing removes an open exception and leaves one that somebody decided. No other standing changes.
pub standing-clear :
    (i : ℕ) (c : ExceptionCode) (db : Db) (j : ℕ) (d : ExceptionCode)
    → Unique exception_key db.exceptions
    → standing j d (clear_exception i c db)
      ≡ (if same_key i c j d then cleared (standing i c db) else standing j d db)
unfolding clear_exception
standing-clear i c db j d u =
    rw
      (find-delete_when exception_key (j, d) (i, c) (λ e. e.status == ExceptionStatus.«open»)
        db.exceptions u)
      (elim (Bool-cases (same_key i c j d)) [
        | inl t ↦ rw t (dropped_standing (find exception_key (i, c) db.exceptions))
        | inr f ↦ rw f
      ])

pub upsert_exception-Unique :
    (i : ℕ) (c : ExceptionCode) (s : ExceptionSeverity) (m : Message) (b : Bool) (db : Db)
    → Unique exception_key db.exceptions
    → Unique exception_key (upsert_exception i c s m b db).exceptions
unfolding upsert_exception
upsert_exception-Unique i c s m b db =
    upsert-Unique exception_key (i, c) (new_exception db.next_id i c s m b)
      (refresh_exception s m b) db.exceptions refl (λ r. refl)

pub clear_exception-Unique :
    (i : ℕ) (c : ExceptionCode) (db : Db)
    → Unique exception_key db.exceptions
    → Unique exception_key (clear_exception i c db).exceptions
unfolding clear_exception
clear_exception-Unique i c db = delete_when-Unique exception_key (i, c) _ db.exceptions
