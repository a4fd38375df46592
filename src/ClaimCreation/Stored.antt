-- ===== src/ClaimCreation/Stored.antt =====
-- What a creation writes (`create` of `app/services/fnol/claims.py`), row by row.
use claims_workbench_be.Common.{
  ℕ, Bool, true, false, none, some, some_or, List, [], ◌∷◌, ◌≡◌, ◌≢◌, refl, sym, ◌∙◌, ap, subst,
  nat_eq, ◌==◌, if◌then◌else◌, beq_self, arith,
}
use mathlib.Core.Option
use claims_workbench_be.Common.Table.{find, modify, find-modify_self, find-modify_ne, find-key}
use claims_workbench_be.Enums.Intake.{FnolStatus, fnol_status_eq}
use claims_workbench_be.Model.Case.{
  FnolCase, as_text, as_stamp, as_number, policy_number, date_of_loss, loss_description,
  estimated_loss_minor,
}
use claims_workbench_be.Model.Claims.{Claim}
use claims_workbench_be.Model.Db.{Db}
use claims_workbench_be.Repository.Cases.{case_id, get_case, update_case}
use claims_workbench_be.Repository.Sequences.{next_reference}
use claims_workbench_be.Repository.Claims.{claim_key, fnol_key, get_claim, get_by_fnol, get_triage}
use claims_workbench_be.Audit.{record_event, audit_claim, audit_fnol}
use claims_workbench_be.Signals.{PythonStrings}
use claims_workbench_be.Triage.{TriageResult}
use claims_workbench_be.Triage.Classify.{triage}
use claims_workbench_be.TriageService.{
  triage_input, is_overridden, triaged_claim, store_triage, run,
}
use claims_workbench_be.TriageService.Assignment.{store_recommendation, recommend}
use claims_workbench_be.ClaimCreation.{blockers}
use claims_workbench_be.ClaimCreation.Create.{
  Creation, created_claim, Request, readied, converted, route_claim, convert, create_unblocked,
  create,
}

modify-head :
    (claim : Claim) (rest : List Claim) (f : Claim → Claim)
    → modify claim_key claim.id f (claim ∷ rest) ≡ f claim ∷ rest
unfolding modify
modify-head claim rest f = rw (beq_self claim.id)

pub find-head :
    (key : Claim → ℕ) (k : Claim) (rest : List Claim) (id : ℕ)
    → key k ≡ id
    → find key id (k ∷ rest) ≡ some k
unfolding find
find-head key k rest id h = rw h (rw (beq_self id))

pub case_id-readied : (c : FnolCase) → case_id (readied c) ≡ case_id c
case_id-readied c = ground arith

-- The two writes to the row of the case.
abbrev modify_twice : FnolCase → ℕ → List FnolCase → List FnolCase
modify_twice c claim_id rows =
    modify case_id c.id (converted claim_id) (modify case_id c.id readied rows)

find-modify_twice :
    (c : FnolCase) (claim_id : ℕ) (rows : List FnolCase)
    → find case_id c.id rows ≡ some c
    → find case_id c.id (modify_twice c claim_id rows) ≡ some (converted claim_id (readied c))
find-modify_twice c claim_id rows h =
    find-modify_self case_id c.id (converted claim_id) _ (λ _. refl)
    ∙ ap (Option.map (converted claim_id))
        (find-modify_self case_id c.id readied rows case_id-readied ∙ ap (Option.map readied) h)

find-modify_elsewhere :
    (c : FnolCase) (claim_id : ℕ) (rows : List FnolCase) (j : ℕ)
    → j ≢ c.id
    → find case_id j (modify_twice c claim_id rows) ≡ find case_id j rows
find-modify_elsewhere c claim_id rows j ne =
    find-modify_ne case_id j c.id (converted claim_id) _ (λ _. refl) ne
    ∙ find-modify_ne case_id j c.id readied rows case_id-readied ne

-- What triage makes of the claim that has just been added.
abbrev routed : Bool → TriageResult → Claim → Claim
routed true r claim = claim
routed false r claim = triaged_claim r claim

routed-rows :
    (b : Bool) (r : TriageResult) (claim : Claim) (rest : List Claim)
    → (if b then claim ∷ rest else modify claim_key claim.id (triaged_claim r) (claim ∷ rest))
      ≡ routed b r claim ∷ rest
routed-rows true r claim rest = refl
routed-rows false r claim rest = modify-head claim rest (triaged_claim r)

-- What the claim takes over from the notification.
abbrev pub Copied : FnolCase → Claim → Type 0
Copied c k =
    (k.policy_id ≡ c.policy_id)
    × (k.policy_number ≡ as_text (c.column policy_number))
    × (k.date_of_loss ≡ as_stamp (c.column date_of_loss))
    × (k.loss_description ≡ as_text (c.column loss_description))
    × (k.reserve_minor ≡ some_or (as_number (c.column estimated_loss_minor)) 0)

routed-Copied :
    (b : Bool) (r : TriageResult) (claim : Claim) (c : FnolCase)
    → Copied c claim
    → Copied c (routed b r claim)
routed-Copied true r claim c h = h
routed-Copied false r claim c h = h

pub get_case-id : (i : ℕ) (db : Db) (c : FnolCase) → get_case i db ≡ some c → c.id ≡ i
unfolding get_case
get_case-id i db c h = find-key case_id i db.cases h

module _ (py : PythonStrings) (threshold : ℕ) where
  abbrev routed_claim : Claim → FnolCase → Db → Claim
  routed_claim claim c db =
      routed (is_overridden (get_triage claim.id db))
        (triage py threshold (triage_input py claim c)) claim

  route_claim-claims :
      (claim : Claim) (c : FnolCase) (db : Db) (rest : List Claim)
      → db.claims ≡ claim ∷ rest
      → (route_claim py threshold claim c db).claims ≡ routed_claim claim c db ∷ rest
  unfolding route_claim run store_triage recommend store_recommendation audit_claim record_event
  route_claim-claims claim c db rest h =
      let r = triage py threshold (triage_input py claim c) in
      let b = is_overridden (get_triage claim.id db) in
      ap (λ rows. if b then rows else modify claim_key claim.id (triaged_claim r) rows) h
      ∙ routed-rows b r claim rest

  route_claim-cases :
      (claim : Claim) (c : FnolCase) (db : Db)
      → (route_claim py threshold claim c db).cases ≡ db.cases
  unfolding route_claim run store_triage recommend store_recommendation audit_claim record_event
  route_claim-cases claim c db = refl

  convert-rows :
      (c : FnolCase) (request : Request) (db : Db)
      → let (claim, db1) = convert py threshold c request db in
        (db1.claims ≡ claim ∷ db.claims)
        × (claim.fnol_case_id ≡ c.id)
        × (db1.cases
            ≡ modify case_id c.id (converted claim.id) (modify case_id c.id readied db.cases))
  unfolding convert next_reference update_case audit_fnol audit_claim record_event
  convert-rows c request db = (refl, refl, refl)

  -- The writes of a creation, with the row of the case as the two updates leave it.
  abbrev pub Stored : ℕ → FnolCase → Db → Creation → Db → Type 0
  Stored i c db result db' =
      (k : Claim) × (result ≡ created_claim k)
      × (k.fnol_case_id ≡ i)
      × (db'.claims ≡ k ∷ db.claims)
      × (get_case i db' ≡ some (converted k.id (readied c)))
      × ((j : ℕ) → j ≢ i → get_case j db' ≡ get_case j db)
      × (Copied c k)

  convert-Copied :
      (c : FnolCase) (request : Request) (db : Db) → Copied c (convert py threshold c request db).0
  unfolding convert next_reference
  convert-Copied c request db = (refl, refl, refl, refl, refl)

  fnol_key-routed :
      (b : Bool) (r : TriageResult) (claim : Claim) → fnol_key (routed b r claim) ≡ fnol_key claim
  fnol_key-routed true r claim = refl
  fnol_key-routed false r claim = refl

  claim_key-routed :
      (b : Bool) (r : TriageResult) (claim : Claim) → claim_key (routed b r claim) ≡ claim_key claim
  claim_key-routed true r claim = refl
  claim_key-routed false r claim = refl

  create_unblocked-Stored :
      (i : ℕ) (c : FnolCase) (request : Request) (db : Db)
      → get_case i db ≡ some c
      → let (result, db') = create_unblocked py threshold c request [] db in
        Stored i c db result db'
  unfolding get_case get_claim
  create_unblocked-Stored i c request db h =
      let (claim, db1) = convert py threshold c request db in
      let (claims, owner, cases) = convert-rows c request db in
      let k = routed_claim claim c db1 in
      let b = is_overridden (get_triage claim.id db1) in
      let r = triage py threshold (triage_input py claim c) in
      let all_cases = route_claim-cases claim c db1 ∙ cases in
      let rows = route_claim-claims claim c db1 db.claims claims in
      let here : c.id ≡ i = find-key case_id i db.cases h in
      let same = claim_key-routed b r claim in
      let moved =
        subst
          (λ n.
            find case_id n (modify_twice c claim.id db.cases) ≡ some (converted k.id (readied c)))
          here
          (find-modify_twice c claim.id db.cases
              (subst (λ n. find case_id n db.cases ≡ some c) (sym here) h)
            ∙ ap (λ n. some (converted n (readied c))) (sym same)) in
      (
        k,
        ap (λ rows. created_claim (some_or (find claim_key claim.id rows) claim)) rows
            ∙ ap (λ o. created_claim (some_or o claim))
                (find-head claim_key k db.claims claim.id same),
        fnol_key-routed b r claim ∙ (owner ∙ here),
        rows,
        ap (find case_id i) all_cases ∙ moved,
        λ j ne.
            ap (find case_id j) all_cases
            ∙ find-modify_elsewhere c claim.id db.cases j (λ e. ne (e ∙ here)),
        routed-Copied b r claim c (convert-Copied c request db),
      )

  create_lem :
      (i : ℕ) (request : Request) (db : Db) (c : FnolCase)
      → get_case i db ≡ some c
      → get_by_fnol c.id db ≡ none
      → (c.status == FnolStatus.claim_created) ≡ false
      → create py threshold i request db
        ≡ create_unblocked py threshold c request (blockers c db) db
  unfolding create
  create_lem i request db c h n s = rw (h, create) (rw n (rw s))

  pub create-Stored :
      (i : ℕ) (request : Request) (db : Db) (c : FnolCase)
      → get_case i db ≡ some c
      → get_by_fnol c.id db ≡ none
      → (c.status == FnolStatus.claim_created) ≡ false
      → blockers c db ≡ []
      → let (result, db') = create py threshold i request db in Stored i c db result db'
  create-Stored i request db c h n s b =
      subst (λ (out : Creation × Db). Stored i c db out.0 out.1)
        (sym (
          create_lem i request db c h n s
          ∙ ap (λ bs. create_unblocked py threshold c request bs db) b))
        (create_unblocked-Stored i c request db h)
