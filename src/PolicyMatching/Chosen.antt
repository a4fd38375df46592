-- ===== src/PolicyMatching/Chosen.antt =====
-- The candidate that an officer chose stays selected when the candidates are rescored
-- (`replace_policy_matches` of `app/repositories/fnol.py`).
use claims_workbench_be.Common.{
  ℕ, suc, Bool, true, false, not, ◌||◌, Option, none, some, List, [], ◌∷◌, map, keep, String,
  nat_eq, ◌==◌, ◌∈?◌, ◌≡◌, refl, sym, ◌∙◌, ap, subst, arith, Bool-cases, Option-cases, inl, inr,
  eq_cases,
}
use claims_workbench_be.Common.Table.{
  find, modify, upsert, upserted, find-upsert, upsert_absent, upsert_present, pair_eq,
}
use claims_workbench_be.Common.Each.{Each, Each-keep}
use claims_workbench_be.Model.Rows.{FnolPolicyMatch}
use claims_workbench_be.Model.Db.{Db}
use claims_workbench_be.Repository.PolicyMatches.{
  match_key, selected_match, stays, rescored, new_match, store_matches, replace_policy_matches,
}
use claims_workbench_be.PolicyMatch.{PolicyCandidate}

module _ (i p : ℕ) (actor : String) where
  -- A row of the case is selected when it is that of the policy, and then by the officer.
  abbrev pub Agreed : FnolPolicyMatch → Type 0
  Agreed m =
      m.fnol_case_id ≡ i
      → (m.selected ≡ (m.policy_id == p)) × (m.selected ≡ true → m.selected_by ≡ some actor)

  abbrev pub Chosen : List FnolPolicyMatch → Type 0
  Chosen rows = Each Agreed rows × ((m : FnolPolicyMatch) × (find match_key (i, p) rows ≡ some m))

  -- The selected candidate is that of the policy.
  abbrev Found : Option FnolPolicyMatch → Type 0
  Found none = ⊥
  Found (some m) = (m.policy_id ≡ p) × (m.selected_by ≡ some actor)

  selected_match-Found : (rows : List FnolPolicyMatch) → Chosen rows → Found (selected_match i rows)
  unfolding selected_match find
  selected_match-Found [] (_, (m, h)) = let no : none ≡ some m = h in cc
  selected_match-Found (r ∷ rows) ((now, later), (m, h)) = elim (eq_cases r.fnol_case_id i) [
    | inr (f, _) ↦ rw f (selected_match-Found rows (later, (m, rw f at h)))
    | inl (t, same) ↦ elim (Bool-cases r.selected) [
      | inl y ↦
          let (here, who) = now same in
          rw (t, y) ((nat_eq.beq_decides r.policy_id p).0 (sym here ∙ y), who y)
      | inr n ↦
          let other : (r.policy_id == p) ≡ false = sym (now same).0 ∙ n in
          rw (t, n) (selected_match-Found rows (later, (m, rw (t, other) at h)))
    ]
  ]

  -- A run writes what is agreed.
  rescored-Agreed :
      (chosen : Option FnolPolicyMatch) (rank : ℕ) (c : PolicyCandidate) (m : FnolPolicyMatch)
      → Found chosen
      → m.policy_id ≡ c.policy_id
      → Agreed (rescored chosen rank c m)
  rescored-Agreed none rank c m h e at = absurd h
  rescored-Agreed (some d) rank c m (same, who) e at =
      (ap (λ x. x == d.policy_id) (sym e) ∙ ap (λ y. m.policy_id == y) same, λ t. rw t who)

  -- The rows after one more candidate is stored.
  abbrev stored :
      Option FnolPolicyMatch → ℕ → PolicyCandidate → List FnolPolicyMatch → List FnolPolicyMatch
  stored chosen rank c rows =
      upsert match_key (i, c.policy_id) (rescored chosen rank c (new_match i c))
        (rescored chosen rank c) rows

  modify-Agreed :
      (k : ℕ × ℕ) (f : FnolPolicyMatch → FnolPolicyMatch)
      → ((m : FnolPolicyMatch) → match_key m ≡ k → Agreed (f m))
      → (rows : List FnolPolicyMatch) → Each Agreed rows
      → Each Agreed (modify match_key k f rows)
  unfolding modify
  modify-Agreed k f h [] a = tt
  modify-Agreed k f h (r ∷ rows) (now, later) = elim (eq_cases {A = ℕ × ℕ} (match_key r) k) [
    | inl (t, same) ↦ rw t (h r same, later)
    | inr (n, _) ↦ rw n (now, modify-Agreed k f h rows later)
  ]

  stored-Agreed :
      (chosen : Option FnolPolicyMatch) (rank : ℕ) (c : PolicyCandidate)
      (rows : List FnolPolicyMatch)
      → Found chosen
      → Each Agreed rows
      → Each Agreed (stored chosen rank c rows)
  stored-Agreed chosen rank c rows h a =
      let k : ℕ × ℕ = (i, c.policy_id) in
      let new = rescored chosen rank c (new_match i c) in
      let f = rescored chosen rank c in
      elim (Option-cases (find match_key k rows)) [
        | inl absent ↦
            subst (Each Agreed) (sym (upsert_absent match_key k new f rows absent))
              (rescored-Agreed chosen rank c (new_match i c) h refl, a)
        | inr (r, present) ↦
            subst (Each Agreed) (sym (upsert_present match_key k new f rows present)) (
              modify-Agreed k f (λ m e. rescored-Agreed chosen rank c m h (ap (λ j. j.1) e)) rows a)
      ]

  stored_row :
      (chosen : Option FnolPolicyMatch) (rank : ℕ) (c : PolicyCandidate)
      (rows : List FnolPolicyMatch)
      → ((m : FnolPolicyMatch) × (find match_key (i, p) rows ≡ some m))
      → ((m : FnolPolicyMatch) × (find match_key (i, p) (stored chosen rank c rows) ≡ some m))
  stored_row chosen rank c rows (m, h) =
      let e =
        find-upsert match_key (i, p) (i, c.policy_id) (rescored chosen rank c (new_match i c))
          (rescored chosen rank c) rows refl (λ r. refl) in
      elim (eq_cases {A = ℕ × ℕ} (i, c.policy_id) (i, p)) [
        | inl (t, _) ↦ (
          upserted match_key (rescored chosen rank c (new_match i c)) (rescored chosen rank c)
              (find match_key (i, c.policy_id) rows),
          e ∙ rw t refl,
        )
        | inr (n, _) ↦ (m, e ∙ rw n h)
      ]

  store_matches-Chosen :
      (chosen : Option FnolPolicyMatch) (rank : ℕ) (cs : List PolicyCandidate)
      (rows : List FnolPolicyMatch)
      → Found chosen
      → Chosen rows
      → Chosen (store_matches i chosen rank cs rows)
  unfolding store_matches
  store_matches-Chosen chosen rank [] rows h k = k
  store_matches-Chosen chosen rank (c ∷ cs) rows h (a, k) =
      store_matches-Chosen chosen (suc rank) cs (stored chosen rank c rows) h
        (stored-Agreed chosen rank c rows h a, stored_row chosen rank c rows k)

  stays_chosen :
      (incoming : List ℕ) (chosen : Option FnolPolicyMatch) (r : FnolPolicyMatch)
      → Found chosen
      → r.policy_id ≡ p
      → stays i incoming chosen r ≡ true
  stays_chosen incoming none r f e = absurd f
  stays_chosen incoming (some d) r (same, _) e =
      let yes : (r.policy_id == d.policy_id) ≡ true =
        (nat_eq.beq_decides r.policy_id d.policy_id).1 (e ∙ sym same) in
      last_true (not (r.fnol_case_id == i)) (r.policy_id ∈? incoming) (r.policy_id == d.policy_id)
        yes
    where
      last_true : (a b c : Bool) → c ≡ true → (a || (b || c)) ≡ true
      last_true a b c h = ground arith

  -- The chosen row is not deleted.
  kept_row :
      (incoming : List ℕ) (chosen : Option FnolPolicyMatch) (rows : List FnolPolicyMatch)
      → Found chosen
      → (m : FnolPolicyMatch) → find match_key (i, p) rows ≡ some m
      → ((m : FnolPolicyMatch) × (find match_key (i, p) (keep (stays i incoming chosen) rows)
            ≡ some m))
  unfolding find
  kept_row incoming chosen [] f m h = let no : none ≡ some m = h in cc
  kept_row incoming chosen (r ∷ rows) f m h = elim (eq_cases {A = ℕ × ℕ} (match_key r) (i, p)) [
    | inl (t, same) ↦ (r, rw (stays_chosen incoming chosen r f (ap (λ k. k.1) same)) (rw t refl))
    | inr (n, _) ↦
        let (m', found) = kept_row incoming chosen rows f m (rw n at h) in
        (
          m',
          elim (Bool-cases (stays i incoming chosen r)) [
            | inl y ↦ rw y (rw n found)
            | inr d ↦ rw d found
          ],
        )
  ]

  pub replace-Chosen :
      (cs : List PolicyCandidate) (db : Db)
      → Chosen db.policy_matches
      → Chosen (replace_policy_matches i cs db).policy_matches
  unfolding replace_policy_matches
  replace-Chosen cs db k =
      let chosen = selected_match i db.policy_matches in
      let found = selected_match-Found db.policy_matches k in
      let incoming = map (λ (c : PolicyCandidate). c.policy_id) cs in
      store_matches-Chosen chosen 0 cs (keep (stays i incoming chosen) db.policy_matches) found (
        Each-keep Agreed (stays i incoming chosen) db.policy_matches k.0,
        kept_row incoming chosen db.policy_matches found k.1.0 k.1.1,
      )
