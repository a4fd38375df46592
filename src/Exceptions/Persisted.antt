-- ===== src/Exceptions/Persisted.antt =====
-- What `evaluate` of `app/services/fnol/exceptions.py` leaves in the exception table.
use claims_workbench_be.Common.{
  ℕ, ◌≡◌, refl, ◌≢◌, ◌∙◌, Bool, true, false, not, List, [], ◌∷◌, Option, some, none, ◌==◌, ◌∈?◌,
  if◌then◌else◌, keep, nat_eq, eq_cases, beq_self, Bool-cases, inl, inr, mem-keep, arith,
}
use claims_workbench_be.Common.Table.{Unique, pair_eq}
use claims_workbench_be.Enums.Intake.{
  ExceptionCode, exception_codes, exception_code_eq, ExceptionStatus,
}
use claims_workbench_be.Model.Case.{FnolCase}
use claims_workbench_be.Model.Db.{Db}
use claims_workbench_be.Repository.Exceptions.{
  exception_key, upsert_exception, clear_exception, standing, cleared, raised_standing,
  standing-upsert, standing-clear, upsert_exception-Unique, clear_exception-Unique,
}
use claims_workbench_be.Exceptions.{
  RaisedException, Settings, Findings, is_blocking, collect, codes, upsert_all, clear_all, persist,
  evaluate,
}

-- One upsert, at its own code, at another code of the case, and at another case.
upsert_at :
    (i : ℕ) (e : RaisedException) (b : Bool) (db : Db)
    → standing i e.code (upsert_exception i e.code e.severity e.message b db)
      ≡ raised_standing (standing i e.code db)
upsert_at i e b db =
    standing-upsert i e.code e.severity e.message b db i e.code ∙ rw (beq_self i, beq_self e.code)

upsert_beside :
    (i : ℕ) (e : RaisedException) (b : Bool) (db : Db) (d : ExceptionCode)
    → (e.code == d) ≡ false
    → standing i d (upsert_exception i e.code e.severity e.message b db) ≡ standing i d db
upsert_beside i e b db d n =
    standing-upsert i e.code e.severity e.message b db i d ∙ rw (beq_self i, n)

upsert_elsewhere :
    (i j : ℕ) (e : RaisedException) (b : Bool) (db : Db) (d : ExceptionCode)
    → (i == j) ≡ false
    → standing j d (upsert_exception i e.code e.severity e.message b db) ≡ standing j d db
upsert_elsewhere i j e b db d n = standing-upsert i e.code e.severity e.message b db j d ∙ rw n

eq_sym : (c d : ExceptionCode) → (c == d) ≡ (d == c)
eq_sym c d = ground arith

raised_again :
    (m : Bool) (s : Option ExceptionStatus)
    → (if m then raised_standing (raised_standing s) else raised_standing s) ≡ raised_standing s
raised_again true none = refl
raised_again true (some s) = refl
raised_again false s = refl

upsert_all-standing :
    (i : ℕ) (raised : List RaisedException) (db : Db) (d : ExceptionCode)
    → standing i d (upsert_all i raised db)
      ≡ (if d ∈? codes raised then raised_standing (standing i d db) else standing i d db)
unfolding upsert_all
upsert_all-standing i [] db d = refl
upsert_all-standing i (e ∷ rest) db d =
    upsert_all-standing i rest (upsert_exception i e.code e.severity e.message (is_blocking e) db) d
    ∙ elim (eq_cases d e.code) [
      | inl (t, same) ↦ rw t (
          rw (same, upsert_at i e (is_blocking e) db)
            (raised_again (e.code ∈? codes rest) (standing i e.code db)))
      | inr (n, other) ↦ rw (n, upsert_beside i e (is_blocking e) db d (eq_sym e.code d ∙ n))
    ]

upsert_all-other :
    (i j : ℕ) (raised : List RaisedException) (db : Db) (d : ExceptionCode)
    → (i == j) ≡ false
    → standing j d (upsert_all i raised db) ≡ standing j d db
unfolding upsert_all
upsert_all-other i j [] db d n = refl
upsert_all-other i j (e ∷ rest) db d n =
    upsert_all-other i j rest (upsert_exception i e.code e.severity e.message (is_blocking e) db) d
      n
    ∙ upsert_elsewhere i j e (is_blocking e) db d n

upsert_all-Unique :
    (i : ℕ) (raised : List RaisedException) (db : Db)
    → Unique exception_key db.exceptions
    → Unique exception_key (upsert_all i raised db).exceptions
unfolding upsert_all
upsert_all-Unique i [] db u = u
upsert_all-Unique i (e ∷ rest) db u =
    upsert_all-Unique i rest (upsert_exception i e.code e.severity e.message (is_blocking e) db)
      (upsert_exception-Unique i e.code e.severity e.message (is_blocking e) db u)

cleared_again :
    (m : Bool) (s : Option ExceptionStatus)
    → (if m then cleared (cleared s) else cleared s) ≡ cleared s
cleared_again true none = refl
cleared_again true (some ExceptionStatus.«open») = refl
cleared_again true (some ExceptionStatus.resolved) = refl
cleared_again true (some ExceptionStatus.dismissed) = refl
cleared_again false s = refl

clear_all-standing :
    (i : ℕ) (cs : List ExceptionCode) (db : Db) (d : ExceptionCode)
    → Unique exception_key db.exceptions
    → standing i d (clear_all i cs db)
      ≡ (if d ∈? cs then cleared (standing i d db) else standing i d db)
unfolding clear_all
clear_all-standing i [] db d u = refl
clear_all-standing i (c ∷ rest) db d u =
    clear_all-standing i rest (clear_exception i c db) d (clear_exception-Unique i c db u)
    ∙ elim (eq_cases d c) [
      | inl (t, same) ↦
          rw (t, same, standing-clear i c db i c u, beq_self i, beq_self c)
            (cleared_again (c ∈? rest) (standing i c db))
      | inr (n, other) ↦ rw (n, standing-clear i c db i d u, beq_self i, eq_sym c d, n)
    ]

clear_all-other :
    (i j : ℕ) (cs : List ExceptionCode) (db : Db) (d : ExceptionCode)
    → Unique exception_key db.exceptions
    → (i == j) ≡ false
    → standing j d (clear_all i cs db) ≡ standing j d db
unfolding clear_all
clear_all-other i j [] db d u n = refl
clear_all-other i j (c ∷ rest) db d u n =
    clear_all-other i j rest (clear_exception i c db) d (clear_exception-Unique i c db u) n
    ∙ standing-clear i c db j d u
    ∙ rw n

clear_all-Unique :
    (i : ℕ) (cs : List ExceptionCode) (db : Db)
    → Unique exception_key db.exceptions
    → Unique exception_key (clear_all i cs db).exceptions
unfolding clear_all
clear_all-Unique i [] db u = u
clear_all-Unique i (c ∷ rest) db u =
    clear_all-Unique i rest (clear_exception i c db) (clear_exception-Unique i c db u)

every_code : (d : ExceptionCode) → (d ∈? exception_codes) ≡ true
every_code ExceptionCode.no_policy_match = refl
every_code _ = refl

-- After a run, an exception of the case that was raised is open if it had no row and keeps the
-- standing of its row otherwise; one that was not raised has no row unless somebody decided it.
persist-standing :
    (i : ℕ) (raised : List RaisedException) (db : Db) (d : ExceptionCode)
    → Unique exception_key db.exceptions
    → standing i d (persist i raised db)
      ≡ (if d ∈? codes raised then raised_standing (standing i d db) else cleared (standing i d db))
unfolding persist
persist-standing i raised db d u =
    let left = keep (λ code. not (code ∈? codes raised)) exception_codes in
    clear_all-standing i left (upsert_all i raised db) d (upsert_all-Unique i raised db u)
    ∙ rw
        (
          mem-keep (λ code. not (code ∈? codes raised)) d exception_codes,
          every_code d,
          upsert_all-standing i raised db d,
        )
        (elim (Bool-cases (d ∈? codes raised)) [ inl t ↦ rw t | inr f ↦ rw f ])

-- `evaluate` returns what it raised. After it, an exception of the case that was raised is open if
-- it had no row, and keeps the standing of its row otherwise; one that was not raised has lost its
-- row if that was open, and keeps the standing that somebody gave it otherwise. The standings of every
-- other case stay, and so does the unique constraint.
pub evaluate-standing :
    (s : Settings) (c : FnolCase) (f : Findings) (db : Db)
    → Unique exception_key db.exceptions
    → let (raised, db') = evaluate s c f db in
      (raised ≡ collect s c f)
      × ((d : ExceptionCode)
          → standing c.id d db' ≡ (
              if d ∈? codes raised
              then raised_standing (standing c.id d db)
              else cleared (standing c.id d db)))
      × ((j : ℕ) (d : ExceptionCode) → c.id ≢ j → standing j d db' ≡ standing j d db)
      × Unique exception_key db'.exceptions
unfolding evaluate
evaluate-standing s c f db u =
    let raised = collect s c f in
    let left = keep (λ code. not (code ∈? codes raised)) exception_codes in
    let u' = upsert_all-Unique c.id raised db u in
    (
      refl,
      λ d. persist-standing c.id raised db d u,
      λ j d ne. elim (eq_cases c.id j) [
        | inl (t, same) ↦ absurd (ne same)
        | inr (n, other) ↦
            clear_all-other c.id j left (upsert_all c.id raised db) d u' n
            ∙ upsert_all-other c.id j raised db d n
      ],
      (clear_all-Unique c.id left (upsert_all c.id raised db) u'),
    )
