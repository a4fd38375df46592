-- ===== src/TriageService/Kept.antt =====
-- What a run of triage keeps of a manager's override.
use claims_workbench_be.Common.{
  ℕ, true, false, Option, none, some, String, ◌≡◌, ◌≢◌, refl, ◌∙◌, ap, nat_eq, arith, beq_self,
}
use mathlib.Core.Option
use claims_workbench_be.Common.Table.{
  find, modify, upserted, find-modify_self, find-modify_ne, find-upsert,
}
use claims_workbench_be.Enums.Claims.{Priority, triage_category_eq}
use claims_workbench_be.Model.Case.{FnolCase}
use claims_workbench_be.Model.Claims.{Claim, ClaimTriage}
use claims_workbench_be.Model.Db.{Db}
use claims_workbench_be.Repository.Claims.{
  claim_key, triage_key, get_claim, get_triage, update_claim,
}
use claims_workbench_be.Signals.{PythonStrings}
use claims_workbench_be.Triage.{TriageResult}
use claims_workbench_be.Triage.Classify.{triage}
use claims_workbench_be.TriageService.{
  triage_input, filled_triage, new_triage, retriaged, triaged_claim, store_triage, run, override,
  overridden_by_hand, is_overridden,
}

pub triage_key-retriaged :
    (r : TriageResult) (t : ClaimTriage) → triage_key (retriaged r t) ≡ triage_key t
triage_key-retriaged r t = ground arith

get_triage-store :
    (r : TriageResult) (id : ℕ) (db : Db)
    → get_triage id (store_triage r id db).1
      ≡ some
          (upserted triage_key (filled_triage r (new_triage id)) (retriaged r) (get_triage id db))
unfolding store_triage get_triage
get_triage-store r id db =
    find-upsert triage_key id id (filled_triage r (new_triage id)) (retriaged r) db.triages refl
      (triage_key-retriaged r)
    ∙ rw (beq_self id)

store_kept :
    (r : TriageResult) (id : ℕ) (db : Db) (t : ClaimTriage)
    → get_triage id db ≡ some t
    → t.overridden ≡ true
    → ((store_triage r id db).0 ≡ record t { categories = r.categories })
      × ((store_triage r id db).1.claims ≡ db.claims)
unfolding store_triage
store_kept r id db t h o = (rw (h) (rw o), rw h (rw o))

store_fresh :
    (r : TriageResult) (id : ℕ) (db : Db) (existing : Option ClaimTriage)
    → get_triage id db ≡ existing
    → is_overridden existing ≡ false
    → ((store_triage r id db).0
        ≡ upserted triage_key (filled_triage r (new_triage id)) (filled_triage r) existing)
      × ((store_triage r id db).1.claims ≡ modify claim_key id (triaged_claim r) db.claims)
unfolding store_triage
store_fresh r id db none h o = (rw h, rw h)
store_fresh r id db (some t) h o = (rw h (rw o), rw h (rw o))

-- The row that `store_triage` returns is the one it stores.
stored_row :
    (r : TriageResult) (id : ℕ) (db : Db)
    → Path
        (Option ClaimTriage)
        (some
          (upserted triage_key (filled_triage r (new_triage id)) (retriaged r) (get_triage id db)))
        (some (store_triage r id db).0)
unfolding store_triage
stored_row r id db = refl

upserted_filled :
    (r : TriageResult) (id : ℕ) (existing : Option ClaimTriage)
    → let row = upserted triage_key (filled_triage r (new_triage id)) (filled_triage r) existing in
      (row.categories ≡ r.categories)
      × (row.recommended_route ≡ r.route.label)
      × (row.recommended_priority ≡ r.priority)
upserted_filled r id none = (refl, refl, refl)
upserted_filled r id (some t) = (refl, refl, refl)

pub override_lem :
    (id : ℕ) (key label : String) (priority : Priority) (reason actor : String) (db : Db)
    (t : ClaimTriage)
    → get_triage id db ≡ some t
    → let db1 = (override id key label priority reason actor db).1 in
      (get_triage id db1 ≡ some (overridden_by_hand key label priority reason actor t))
      × (db1.claims
          ≡ modify claim_key id (λ (claim : Claim). record claim { priority = priority }) db.claims)
unfolding override get_triage update_claim
override_lem id key label priority reason actor db t h =
    rw (h, override)
      (
        find-modify_self triage_key id (overridden_by_hand key label priority reason actor)
              db.triages (λ _. refl)
            ∙ rw h,
        refl,
      )

module _ (py : PythonStrings) (threshold : ℕ) (claim : Claim) (c : FnolCase) (db : Db) where
  -- The row that `run` returns is the one it leaves in the table. When a manager has overridden the
  -- triage, it keeps the route, the priority and the record of the override, only its categories are
  -- computed again, and no claim changes.
  pub run-overridden :
      (t : ClaimTriage)
      → get_triage claim.id db ≡ some t
      → t.overridden ≡ true
      → let (row, db') = run py threshold claim c db in
        (get_triage claim.id db' ≡ some row)
        × (row
            ≡ record t { categories = (triage py threshold (triage_input py claim c)).categories })
        × (db'.claims ≡ db.claims)
  unfolding run
  run-overridden t h o =
      let r = triage py threshold (triage_input py claim c) in
      let kept = store_kept r claim.id db t h o in
      (get_triage-store r claim.id db ∙ stored_row r claim.id db, kept.0, kept.1)

  -- Without an override the row takes the route, the priority and the categories that `triage` gives,
  -- the claim takes the priority, the status `classified` and a fraud flag if the claim is referred for
  -- fraud, and no other claim changes.
  pub run-fresh :
      is_overridden (get_triage claim.id db) ≡ false
      → let r = triage py threshold (triage_input py claim c) in
        let (row, db') = run py threshold claim c db in
        (get_triage claim.id db' ≡ some row)
        × (row.categories ≡ r.categories)
        × (row.recommended_route ≡ r.route.label)
        × (row.recommended_priority ≡ r.priority)
        × (get_claim claim.id db' ≡ Option.map (triaged_claim r) (get_claim claim.id db))
        × ((j : ℕ) → j ≢ claim.id → get_claim j db' ≡ get_claim j db)
  unfolding run get_claim
  run-fresh o =
      let r = triage py threshold (triage_input py claim c) in
      let fresh = store_fresh r claim.id db (get_triage claim.id db) refl o in
      let filled = upserted_filled r claim.id (get_triage claim.id db) in
      (
        get_triage-store r claim.id db ∙ stored_row r claim.id db,
        ap (λ (t : ClaimTriage). t.categories) fresh.0 ∙ filled.0,
        ap (λ (t : ClaimTriage). t.recommended_route) fresh.0 ∙ filled.1,
        ap (λ (t : ClaimTriage). t.recommended_priority) fresh.0 ∙ filled.2,
        ap (find claim_key claim.id) fresh.1
            ∙ find-modify_self claim_key claim.id (triaged_claim r) db.claims (λ _. refl),
        λ j ne.
            ap (find claim_key j) fresh.1
            ∙ find-modify_ne claim_key j claim.id (triaged_claim r) db.claims (λ _. refl) ne,
      )
