-- ===== src/Repository/Issued.antt =====
-- The references that `next_reference` of `app/repositories/reference.py` hands out over many calls.
use claims_workbench_be.Common.{
  ℕ, ◌+◌, ◌≤◌, List, [], ◌∷◌, ◌≡◌, ◌≢◌, sym, ◌∙◌, ap, nat_eq, list_eq, and_true, ◌==◌, Bool-cases,
  inl, inr, arith,
}
use claims_workbench_be.References.{Text, format_reference}
use claims_workbench_be.References.Distinct.{format_reference_injective}
use claims_workbench_be.Model.Db.{Db}
use claims_workbench_be.Repository.Sequences.{
  last_reference, next_reference, same_counter, next_reference_lem,
}

-- Calls one after the other, each with its prefix and year.
pub issue_all : List (Text × ℕ) → Db → Db
issue_all [] db = db
issue_all ((prefix, year) ∷ rest) db = issue_all rest (next_reference prefix year db).1

counter-next_reference :
    (p : Text) (y : ℕ) (prefix : Text) (year : ℕ) (db : Db)
    → last_reference p y db ≤ last_reference p y (next_reference prefix year db).1
counter-next_reference p y prefix year db =
    let (text, own, others) = next_reference_lem prefix year db in
    elim (Bool-cases (same_counter prefix year p y)) [
      | inl t ↦
          let (a, b) = and_true (prefix == p) (year == y) t in
          same ((list_eq.beq_decides prefix p).0 a) ((nat_eq.beq_decides year y).0 b) own
      | inr f ↦ omega (arith, others p y f)
    ]
  where
    same :
        prefix ≡ p
        → year ≡ y
        → last_reference prefix year (next_reference prefix year db).1
          ≡ last_reference prefix year db + 1
        → last_reference p y db ≤ last_reference p y (next_reference prefix year db).1
    same e f own = rw (← e, ← f) (omega (arith, own))

counter-issue_all :
    (p : Text) (y : ℕ) (calls : List (Text × ℕ)) (db : Db)
    → last_reference p y db ≤ last_reference p y (issue_all calls db)
unfolding issue_all
counter-issue_all p y [] db = omega arith
counter-issue_all p y ((prefix, year) ∷ rest) db = omega (
  arith,
  counter-next_reference p y prefix year db,
  counter-issue_all p y rest (next_reference prefix year db).1,
)

-- A reference shows the number behind the last one of its prefix and year, and no later call for this
-- prefix and year hands out the same reference, whatever calls come between.
pub next_reference-Distinct :
    (prefix : Text) (year : ℕ) (between : List (Text × ℕ)) (db : Db)
    → let (first, db1) = next_reference prefix year db in
      let (second, db2) = next_reference prefix year (issue_all between db1) in
      (first ≡ format_reference prefix year (last_reference prefix year db + 1)) × (first ≢ second)
next_reference-Distinct prefix year between db =
    let (text, own, others) = next_reference_lem prefix year db in
    let db1 = (next_reference prefix year db).1 in
    let (later, next, rest) = next_reference_lem prefix year (issue_all between db1) in
    let grown = counter-issue_all prefix year between db1 in
    (
      text ∙ ap (format_reference prefix year) own,
      λ e.
          let same = format_reference_injective prefix year _ _ (sym text ∙ e ∙ later) in
          absurd (omega (arith, same, own, next, grown)),
    )
