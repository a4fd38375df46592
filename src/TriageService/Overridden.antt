-- ===== src/TriageService/Overridden.antt =====
-- A manager's override (`override` of `app/services/fnol/triage.py`) against the runs that come after
-- it.
use claims_workbench_be.Common.{
  ℕ, true, false, some, List, [], ◌∷◌, Bool, inl, inr, sym, eq_cases, String, ◌≡◌, ◌≢◌, refl, ◌∙◌,
  ap, nat_eq, if◌then◌else◌,
}
use mathlib.Core.Option
use claims_workbench_be.Common.Table.{find, modify, find-modify_self, find-modify_ne, find-upsert}
use claims_workbench_be.Enums.Claims.{Priority, triage_category_eq}
use claims_workbench_be.Model.Case.{FnolCase}
use claims_workbench_be.Model.Claims.{Claim, ClaimTriage}
use claims_workbench_be.Model.Db.{Db}
use claims_workbench_be.Repository.Claims.{claim_key, triage_key, get_claim, get_triage}
use claims_workbench_be.Signals.{PythonStrings}
use claims_workbench_be.Triage.{TriageResult}
use claims_workbench_be.Triage.Classify.{triage}
use claims_workbench_be.TriageService.{
  triage_input, filled_triage, new_triage, retriaged, triaged_claim, store_triage, run, override,
  overridden_by_hand, is_overridden,
}
use claims_workbench_be.TriageService.Kept.{triage_key-retriaged, override_lem}

-- What a row has of a manager's decision: all but its categories.
abbrev HandKept : ℕ → ClaimTriage → Db → Type 0
HandKept id t db =
    (row : ClaimTriage) × (get_triage id db ≡ some row)
    × (row ≡ record t { categories = row.categories })

store_triage-kept :
    (r : TriageResult) (k id : ℕ) (t : ClaimTriage) (db : Db)
    → t.overridden ≡ true
    → HandKept id t db
    → HandKept id t (store_triage r k db).1
      × (get_claim id (store_triage r k db).1 ≡ get_claim id db)
unfolding store_triage get_triage get_claim
store_triage-kept r k id t db o (row, stored, kept) = elim (eq_cases k id) [
  | inl (same, e) ↦
      let found : find triage_key k db.triages ≡ some row =
        ap (λ n. find triage_key n db.triages) e ∙ stored in
      let by_hand : row.overridden ≡ true = ap (λ (t : ClaimTriage). t.overridden) kept ∙ o in
      let again : retriaged r row ≡ record row { categories = r.categories } = rw by_hand refl in
      (
        (
          record row { categories = r.categories },
          find-upsert triage_key id k (filled_triage r (new_triage k)) (retriaged r) db.triages refl
                (triage_key-retriaged r)
              ∙ rw (same, found) (ap some again),
          ap (λ (t : ClaimTriage). record t { categories = r.categories }) kept,
        ),
        rw found (rw by_hand refl),
      )
  | inr (other, ne) ↦ (
    (
      row,
      find-upsert triage_key id k (filled_triage r (new_triage k)) (retriaged r) db.triages refl
            (triage_key-retriaged r)
          ∙ rw other stored,
      kept,
    ),
    claims_elsewhere (is_overridden (find triage_key k db.triages)) ne,
  )
]
  where
    claims_elsewhere :
        (b : Bool)
        → k ≢ id
        → find claim_key id
            (if b then db.claims else modify claim_key k (triaged_claim r) db.claims)
          ≡ find claim_key id db.claims
    claims_elsewhere true ne = refl
    claims_elsewhere false ne =
        find-modify_ne claim_key id k (triaged_claim r) db.claims (λ _. refl) (λ e. ne (sym e))

module _ (py : PythonStrings) (threshold : ℕ) where
  -- Runs of triage one after the other, each of a claim and its notification.
  pub run_all : List (Claim × FnolCase) → Db → Db
  run_all [] db = db
  run_all ((claim, c) ∷ rest) db = run_all rest (run py threshold claim c db).1

  run_all-kept :
      (id : ℕ) (t : ClaimTriage)
      → t.overridden ≡ true
      → (runs : List (Claim × FnolCase)) (db : Db) → HandKept id t db
      → HandKept id t (run_all runs db) × (get_claim id (run_all runs db) ≡ get_claim id db)
  unfolding run_all run
  run_all-kept id t o [] db h = (h, refl)
  run_all-kept id t o ((claim, c) ∷ rest) db h =
      let r = triage py threshold (triage_input py claim c) in
      let (now, same) = store_triage-kept r claim.id id t db o h in
      let (later, unmoved) = run_all-kept id t o rest (store_triage r claim.id db).1 now in
      (later, unmoved ∙ same)

  -- After a manager's override, any number of later runs, of this claim and of others, keep the
  -- manager's route and priority on the row, with who decided and why and with the route that the row
  -- had before its first override; the claim keeps the manager's priority and is else as it was.
  pub run_all-override :
      (id : ℕ) (key label : String) (priority : Priority) (reason actor : String) (db : Db)
      (t : ClaimTriage) (runs : List (Claim × FnolCase))
      → get_triage id db ≡ some t
      → let db' = run_all runs (override id key label priority reason actor db).1 in
        (row : ClaimTriage) × (get_triage id db' ≡ some row)
        × (row.overridden ≡ true)
        × (row.recommended_route_key ≡ key)
        × (row.recommended_route ≡ label)
        × (row.recommended_priority ≡ priority)
        × (row.overridden_by ≡ some actor)
        × (row.override_reason ≡ some reason)
        × (row.original_route
            ≡ (if t.overridden then t.original_route else some t.recommended_route))
        × (get_claim id db'
            ≡ Option.map
                (λ (claim : Claim). record claim { priority = priority })
                (get_claim id db))
  unfolding get_claim
  run_all-override id key label priority reason actor db t runs h =
      let (stored, claims) = override_lem id key label priority reason actor db t h in
      let db1 = (override id key label priority reason actor db).1 in
      let ((row, found, kept), unmoved) =
        run_all-kept id (overridden_by_hand key label priority reason actor t) refl runs db1
          (_, stored, refl) in
      (
        row,
        found,
        ap (λ (t : ClaimTriage). t.overridden) kept,
        ap (λ (t : ClaimTriage). t.recommended_route_key) kept,
        ap (λ (t : ClaimTriage). t.recommended_route) kept,
        ap (λ (t : ClaimTriage). t.recommended_priority) kept,
        ap (λ (t : ClaimTriage). t.overridden_by) kept,
        ap (λ (t : ClaimTriage). t.override_reason) kept,
        ap (λ (t : ClaimTriage). t.original_route) kept,
        unmoved
            ∙ (ap (find claim_key id) claims
                ∙ find-modify_self claim_key id _ db.claims (λ _. refl)),
      )
