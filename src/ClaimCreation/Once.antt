-- ===== src/ClaimCreation/Once.antt =====
-- A notification becomes a claim at most once (`create` of `app/services/fnol/claims.py`).
use claims_workbench_be.Common.{
  ℕ, false, none, some, some_or, List, [], ◌∷◌, ◌≡◌, ◌≢◌, refl, sym, ◌∙◌, ap, subst, nat_eq, ◌==◌,
  ◌⊎◌, inl, inr, Bool-cases, Option-cases,
}
use claims_workbench_be.Common.Table.{find, Unique}
use claims_workbench_be.Enums.Intake.{FnolStatus, fnol_status_eq}
use claims_workbench_be.Model.Case.{
  FnolCase, as_text, as_stamp, as_number, policy_number, date_of_loss, loss_description,
  estimated_loss_minor,
}
use claims_workbench_be.Model.Claims.{Claim}
use claims_workbench_be.Model.Db.{Db}
use claims_workbench_be.Repository.Cases.{get_case}
use claims_workbench_be.Repository.Claims.{fnol_key, get_by_fnol}
use claims_workbench_be.Lifecycle.{can_transition}
use claims_workbench_be.Signals.{PythonStrings}
use claims_workbench_be.ClaimCreation.{Blocker, blockers}
use claims_workbench_be.ClaimCreation.Create.{
  Creation, created_claim, existing_claim, Request, readied, converted, create_unblocked,
  create_new, create,
}
use claims_workbench_be.ClaimCreation.Stored.{
  find-head, case_id-readied, get_case-id, create-Stored,
}

module _ (py : PythonStrings) (threshold : ℕ) where
  -- What a creation leaves, as one statement about the two databases.
  abbrev pub Converted : ℕ → FnolCase → Db → Creation → Db → Type 0
  Converted i c db result db' =
      (k : Claim) × (c' : FnolCase) × (result ≡ created_claim k)
      × (db'.claims ≡ k ∷ db.claims)
      × (get_by_fnol i db' ≡ some k)
      × (get_case i db' ≡ some c')
      × (c'.claim_id ≡ some k.id)
      × (c'.status ≡ FnolStatus.claim_created)
      × (c' ≡ record c { claim_id = c'.claim_id; status = c'.status })
      × (k.policy_id ≡ c.policy_id)
      × (k.policy_number ≡ as_text (c.column policy_number))
      × (k.date_of_loss ≡ as_stamp (c.column date_of_loss))
      × (k.loss_description ≡ as_text (c.column loss_description))
      × (k.reserve_minor ≡ some_or (as_number (c.column estimated_loss_minor)) 0)
      × ((j : ℕ) → j ≢ i → get_case j db' ≡ get_case j db)

  converted-fields :
      (n : ℕ) (c : FnolCase)
      → let c' = converted n (readied c) in
        (c'.claim_id ≡ some n)
        × (c'.status ≡ FnolStatus.claim_created)
        × (c' ≡ record c { claim_id = c'.claim_id; status = c'.status })
  converted-fields n c = elim (Bool-cases (can_transition c.status FnolStatus.claim_created)) [
    | inl t ↦ rw t (refl, refl, refl)
    | inr f ↦ rw f (refl, refl, refl)
  ]

  -- A notification that has no claim, is not marked as converted and has nothing that blocks it becomes
  -- a claim, whatever else its status is. One claim is added, which is the one found for the
  -- notification and has its policy, its date and description of the loss, and its estimate, or zero,
  -- as the reserve. The case has the number of the claim and the status `claim_created` and is else as
  -- it was, and no other case changes.
  pub create-Converted :
      (i : ℕ) (request : Request) (db : Db) (c : FnolCase)
      → get_case i db ≡ some c
      → get_by_fnol c.id db ≡ none
      → (c.status == FnolStatus.claim_created) ≡ false
      → blockers c db ≡ []
      → let (result, db') = create py threshold i request db in Converted i c db result db'
  unfolding get_by_fnol
  create-Converted i request db c h n s b =
      let (k, made, owner, rows, stored, others, copied) =
        create-Stored py threshold i request db c h n s b in
      let (number, status, rest) = converted-fields k.id c in
      (
        k,
        converted k.id (readied c),
        made,
        rows,
        ap (find fnol_key i) rows ∙ find-head fnol_key k db.claims i owner,
        stored,
        number,
        status,
        rest,
        copied.0,
        copied.1,
        copied.2,
        copied.3,
        copied.4,
        others,
      )

  create_again :
      (i : ℕ) (request : Request) (db : Db) (c : FnolCase) (k : Claim)
      → get_case i db ≡ some c
      → get_by_fnol c.id db ≡ some k
      → create py threshold i request db ≡ (existing_claim k, db)
  unfolding create
  create_again i request db c k h e = rw (h, create) (rw e)

  -- A repeated request returns the claim that the first one made and changes nothing.
  pub create-create :
      (i : ℕ) (first again : Request) (db : Db) (c : FnolCase)
      → get_case i db ≡ some c
      → get_by_fnol c.id db ≡ none
      → (c.status == FnolStatus.claim_created) ≡ false
      → blockers c db ≡ []
      → let (result, db') = create py threshold i first db in
        (k : Claim) × (result ≡ created_claim k)
        × (create py threshold i again db' ≡ (existing_claim k, db'))
  unfolding get_by_fnol
  create-create i first again db c h n s b =
      let db' = (create py threshold i first db).1 in
      let (k, made, owner, rows, stored, others, copied) =
        create-Stored py threshold i first db c h n s b in
      let same = case_id-readied c ∙ get_case-id i db c h in
      (
        k,
        made,
        create_again i again db' _ k stored (
            ap (find fnol_key (readied c).id) rows
            ∙ find-head fnol_key k db.claims (readied c).id (owner ∙ sym same)),
      )

  -- What lets a request write.
  abbrev pub MayCreate : ℕ → Db → Type 0
  MayCreate i db =
      (c : FnolCase) × (get_case i db ≡ some c)
      × (get_by_fnol c.id db ≡ none)
      × ((c.status == FnolStatus.claim_created) ≡ false)
      × (blockers c db ≡ [])

  create_unblocked_cases :
      (c : FnolCase) (request : Request) (db : Db) (bs : List Blocker)
      → ((create_unblocked py threshold c request bs db).1 ≡ db) ⊎ (bs ≡ [])
  create_unblocked_cases c request db [] = inr refl
  create_unblocked_cases c request db (b ∷ bs) = inl refl

  create_new_cases :
      (c : FnolCase) (request : Request) (db : Db)
      → ((create_new py threshold c request db).1 ≡ db)
        ⊎ (((c.status == FnolStatus.claim_created) ≡ false) × (blockers c db ≡ []))
  create_new_cases c request db = elim (Bool-cases (c.status == FnolStatus.claim_created)) [
    | inl t ↦ inl (rw t)
    | inr f ↦ elim (create_unblocked_cases c request db (blockers c db)) [
      | inl same ↦ inl (rw f same)
      | inr none_left ↦ inr (f, none_left)
    ]
  ]

  create_absent :
      (i : ℕ) (request : Request) (db : Db)
      → get_case i db ≡ none
      → (create py threshold i request db).1 ≡ db
  unfolding create
  create_absent i request db h = rw (h, create)

  create_present :
      (i : ℕ) (request : Request) (db : Db) (c : FnolCase)
      → get_case i db ≡ some c
      → get_by_fnol c.id db ≡ none
      → (create py threshold i request db).1 ≡ (create_new py threshold c request db).1
  unfolding create
  create_present i request db c h n = rw (h, create) (rw n)

  -- A request writes only when the notification exists, has no claim, is not marked as converted and
  -- has nothing that blocks it. In every other case the database is as it was.
  pub create_cases :
      (i : ℕ) (request : Request) (db : Db)
      → ((create py threshold i request db).1 ≡ db) ⊎ MayCreate i db
  create_cases i request db = elim (Option-cases (get_case i db)) [
    | inl h ↦ inl (create_absent i request db h)
    | inr (c, h) ↦ elim (Option-cases (get_by_fnol c.id db)) [
      | inr (k, e) ↦ inl (ap (λ (out : Creation × Db). out.1) (create_again i request db c k h e))
      | inl n ↦ elim (create_new_cases c request db) [
        | inl same ↦ inl (create_present i request db c h n ∙ same)
        | inr (s, b) ↦ inr (c, h, n, s, b)
      ]
    ]
  ]

  -- Whatever its result, a request keeps the rule of one claim for one notification.
  pub create-Unique :
      (i : ℕ) (request : Request) (db : Db)
      → Unique fnol_key db.claims
      → Unique fnol_key (create py threshold i request db).1.claims
  unfolding get_by_fnol
  create-Unique i request db u = elim (create_cases i request db) [
    | inl same ↦ subst (λ (d : Db). Unique fnol_key d.claims) (sym same) u
    | inr (c, h, n, s, b) ↦
        let (k, made, owner, rows, stored, others, copied) =
          create-Stored py threshold i request db c h n s b in
        let fresh = ap (λ j. find fnol_key j db.claims) (owner ∙ sym (get_case-id i db c h)) ∙ n in
        subst (λ rows. Unique fnol_key rows) (sym rows) (fresh, u)
  ]
