-- ===== src/TriageService/Owned.antt =====
-- What an assignment does, and that a claim that somebody owns keeps its owner.
use claims_workbench_be.Common.{
  ℕ, ◌+◌, Option, none, some, some_or, or_else, String, true, ◌<◌, ◌↔◌, ◌⊎◌, ◌≡◌, ◌≢◌, refl, sym,
  subst, ◌∙◌, ap, nat_eq, beq_self, arith,
}
use mathlib.Core.Option
use claims_workbench_be.Common.Table.{find, find-key, find-modify_self, find-modify_ne, find-upsert}
use claims_workbench_be.Enums.Claims.{ClaimStatus, AssignmentStatus, assignment_status_eq}
use claims_workbench_be.Model.Claims.{Claim, ClaimTriage, ClaimAssignment, Handler}
use claims_workbench_be.Model.Db.{Db}
use claims_workbench_be.Repository.Claims.{
  claim_key, assignment_key, handler_key, get_claim, get_assignment, get_handler, update_claim,
  increment_workload,
}
use claims_workbench_be.Triage.Handlers.{HandlerScore, AssignmentRecommendation}
use claims_workbench_be.TriageService.Assignment.{
  new_assignment, recommended_to, reassigned, recommendation_for, store_recommendation, recommend,
  owned_by, handled_claim, hand_over, target_handler, assign,
}

assignment_key-recommended_to :
    (r : AssignmentRecommendation) (best : Option HandlerScore) (a : ClaimAssignment)
    → assignment_key (recommended_to r best a) ≡ assignment_key a
assignment_key-recommended_to r none a = refl
assignment_key-recommended_to r (some h) a = refl

assignment_key-reassigned :
    (r : AssignmentRecommendation) (a : ClaimAssignment)
    → assignment_key (reassigned r a) ≡ assignment_key a
assignment_key-reassigned r a = ground (arith, assignment_key-recommended_to r r.handler a)

get_assignment-store :
    (r : AssignmentRecommendation) (id : ℕ) (db : Db)
    → get_assignment id (store_recommendation r id db).1 ≡ some (store_recommendation r id db).0
unfolding store_recommendation get_assignment
get_assignment-store r id db =
    find-upsert assignment_key id id (recommended_to r r.handler (new_assignment id)) (reassigned r)
      db.assignments (assignment_key-recommended_to r r.handler (new_assignment id))
      (assignment_key-reassigned r)
    ∙ rw (beq_self id)

store_owned :
    (r : AssignmentRecommendation) (id : ℕ) (db : Db) (a : ClaimAssignment)
    → get_assignment id db ≡ some a
    → a.status ≡ AssignmentStatus.assigned
    → (store_recommendation r id db).0 ≡ a
unfolding store_recommendation
store_owned r id db a h o = rw h (rw o)

assign_found :
    (id : ℕ) (handler_id : Option ℕ) (actor : String) (now : ℕ) (db : Db) (a : ClaimAssignment)
    (h : Handler)
    → get_assignment id db ≡ some a
    → target_handler (or_else handler_id a.handler_id) db ≡ some h
    → assign id handler_id actor now db
      ≡ (some (owned_by h handler_id actor now a), hand_over id h handler_id actor now db)
unfolding assign
assign_found id handler_id actor now db a h e t = rw (e, assign) (rw t)

-- The writes of an assignment, row by row.
assign-owned :
    (id : ℕ) (handler_id : Option ℕ) (actor : String) (now : ℕ) (db : Db) (a : ClaimAssignment)
    (h : Handler)
    → get_assignment id db ≡ some a
    → target_handler (or_else handler_id a.handler_id) db ≡ some h
    → let (result, db') = assign id handler_id actor now db in
      (result ≡ get_assignment id db')
      × (get_assignment id db' ≡ some (owned_by h handler_id actor now a))
      × (get_claim id db' ≡ Option.map (handled_claim h) (get_claim id db))
      × ((j : ℕ) → j ≢ id → get_claim j db' ≡ get_claim j db)
      × (get_handler h.id db'
          ≡ Option.map
              (λ (w : Handler). record w { open_claims = w.open_claims + 1 })
              (get_handler h.id db))
      × ((j : ℕ) → j ≢ h.id → get_handler j db' ≡ get_handler j db)
unfolding get_assignment get_claim get_handler update_claim increment_workload
assign-owned id handler_id actor now db a h e t =
    let row =
      find-modify_self assignment_key id (owned_by h handler_id actor now) db.assignments
        (λ _. refl)
      ∙ ap (Option.map (owned_by h handler_id actor now)) e in
    rw (assign_found id handler_id actor now db a h e t) (
      sym row,
      row,
      find-modify_self claim_key id (handled_claim h) db.claims (λ _. refl),
      λ j ne. find-modify_ne claim_key j id (handled_claim h) db.claims (λ _. refl) ne,
      find-modify_self handler_key h.id _ db.handlers (λ _. refl),
      λ j ne. find-modify_ne handler_key j h.id _ db.handlers (λ _. refl) ne,
    )

assign-elsewhere :
    (id : ℕ) (handler_id : Option ℕ) (actor : String) (now : ℕ) (db : Db) (a : ClaimAssignment)
    (h : Handler)
    → get_assignment id db ≡ some a
    → target_handler (or_else handler_id a.handler_id) db ≡ some h
    → (j : ℕ) → j ≢ id
    → get_assignment j (assign id handler_id actor now db).1 ≡ get_assignment j db
unfolding get_assignment update_claim increment_workload
assign-elsewhere id handler_id actor now db a h e t j ne =
    rw (assign_found id handler_id actor now db a h e t) (
      find-modify_ne assignment_key j id (owned_by h handler_id actor now) db.assignments
        (λ _. refl) ne)

target-found :
    (target : Option ℕ) (db : Db) (h : Handler)
    → target_handler target db ≡ some h
    → get_handler h.id db ≡ some h
unfolding get_handler
target-found none db h e = cc
target-found (some id) db h e =
    subst (λ n. find handler_key n db.handlers ≡ some h)
      (sym (find-key handler_key id db.handlers e)) e

over_authority-handled :
    (h : Handler) (k : Claim)
    → let limit = some_or h.authority_limit_minor 0 in
      ((handled_claim h k).over_authority ≡ true) ↔ (
        ((0 < limit) × (limit < k.reserve_minor))
        ⊎ ((k.over_authority ≡ true) × ((limit ≡ 0) ⊎ (k.reserve_minor ≡ 0))))
over_authority-handled h k = (λ e. ground arith, λ e. ground arith)

module _ (id : ℕ) (handler_id : Option ℕ) (actor : String) (now : ℕ) (db : Db) where
  -- An assignment to a handler who exists stores and returns the row of the claim's assignment, which
  -- names the handler, the handler's team and who assigned it and when, and stands at `assigned`. The
  -- claim names the handler too and stands at `in_review`, with its reserve and its priority as they
  -- were; it is marked as over authority exactly when the handler's limit is not zero and the reserve
  -- is above it, or when it was so marked and the limit or the reserve is zero. The handler has one
  -- open claim more. Every other claim, assignment and handler stays.
  pub assign_lem :
      (a : ClaimAssignment) (h : Handler) (k : Claim)
      → get_assignment id db ≡ some a
      → target_handler (or_else handler_id a.handler_id) db ≡ some h
      → get_claim id db ≡ some k
      → let (result, db') = assign id handler_id actor now db in
        ((b : ClaimAssignment) × (result ≡ some b)
          × (get_assignment id db' ≡ some b)
          × (b.status ≡ AssignmentStatus.assigned)
          × (b.handler_id ≡ some h.id)
          × (b.handler_name ≡ some h.full_name)
          × (b.team ≡ some h.team)
          × (b.assigned_by ≡ some actor)
          × (b.assigned_at ≡ some now))
        × ((k' : Claim) × (get_claim id db' ≡ some k')
            × (k'.status ≡ ClaimStatus.in_review)
            × (k'.handler_name ≡ some h.full_name)
            × (k'.reserve_minor ≡ k.reserve_minor)
            × (k'.priority ≡ k.priority)
            × (let limit = some_or h.authority_limit_minor 0 in
                (k'.over_authority ≡ true) ↔ (
                  ((0 < limit) × (limit < k.reserve_minor))
                  ⊎ ((k.over_authority ≡ true) × ((limit ≡ 0) ⊎ (k.reserve_minor ≡ 0))))))
        × ((w : Handler) × (get_handler h.id db' ≡ some w) × (w.open_claims ≡ h.open_claims + 1))
        × ((j : ℕ)
            → j ≢ id
            → (get_claim j db' ≡ get_claim j db) × (get_assignment j db' ≡ get_assignment j db))
        × ((j : ℕ) → j ≢ h.id → get_handler j db' ≡ get_handler j db)
  assign_lem a h k e t c =
      let (result, row, claim, claims, handler, handlers) =
        assign-owned id handler_id actor now db a h e t in
      (
        (owned_by h handler_id actor now a, result ∙ row, row, refl, refl, refl, refl, refl, refl),
        (
          handled_claim h k,
          claim ∙ ap (Option.map (handled_claim h)) c,
          refl,
          refl,
          refl,
          refl,
          over_authority-handled h k,
        ),
        (
          record h { open_claims = h.open_claims + 1 },
          handler
              ∙ ap (Option.map (λ (w : Handler). record w { open_claims = w.open_claims + 1 }))
                  (target-found (or_else handler_id a.handler_id) db h t),
          refl,
        ),
        λ j ne. (claims j ne, assign-elsewhere id handler_id actor now db a h e t j ne),
        handlers,
      )

-- Once a claim is assigned, the engine's later recommendations leave its assignment as it is.
pub recommend-assign :
    (lower : String → String) (claim : Claim) (t : ClaimTriage) (handler_id : Option ℕ)
    (actor : String) (now : ℕ) (db : Db) (a : ClaimAssignment) (h : Handler)
    → get_assignment claim.id db ≡ some a
    → target_handler (or_else handler_id a.handler_id) db ≡ some h
    → let db1 = (assign claim.id handler_id actor now db).1 in
      let (row, db2) = recommend lower claim t db1 in
      (row ≡ owned_by h handler_id actor now a) × (get_assignment claim.id db2 ≡ some row)
unfolding recommend
recommend-assign lower claim t handler_id actor now db a h e g =
    let db1 = (assign claim.id handler_id actor now db).1 in
    let r = recommendation_for lower claim t db1 in
    let owned = assign-owned claim.id handler_id actor now db a h e g in
    (store_owned r claim.id db1 _ owned.1 refl, get_assignment-store r claim.id db1)
