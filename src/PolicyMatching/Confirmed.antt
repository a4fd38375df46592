-- ===== src/PolicyMatching/Confirmed.antt =====
-- The policy that an officer chose (`select` of `app/services/fnol/matching.py`) and the later runs of
-- the matching.
use claims_workbench_be.Common.{
  ℕ, true, false, Option, none, some, some_or, List, [], ◌∷◌, map, String, nat_eq, ◌==◌, ◌≡◌, refl,
  sym, ◌∙◌, ap, subst, Bool-cases, inl, inr,
}
use mathlib.Core.Option
use claims_workbench_be.Common.Table.{find, find-key, pair_eq}
use claims_workbench_be.Common.Each.{Each}
use claims_workbench_be.Model.Case.{Attribute, FnolCase, as_text, holds_text}
use claims_workbench_be.Model.Claims.{Policy}
use claims_workbench_be.Model.Rows.{FnolPolicyMatch}
use claims_workbench_be.Enums.Assessment.{PolicyMatchStrength}
use claims_workbench_be.Repository.PolicyMatches.{
  match_key, get_policy_match, replace_policy_matches,
}
use claims_workbench_be.Session.{Session}
use claims_workbench_be.Matching.{PythonWords}
use claims_workbench_be.PolicyMatch.{Thresholds, PolicyCandidate, rank_candidates, overall_strength}
use claims_workbench_be.PolicyMatching.{
  bind, match_policies, Selection, selected, no_candidate, choose, confirmed_as, select_found,
  select,
}
use claims_workbench_be.PolicyMatching.Chosen.{Agreed, Chosen, replace-Chosen}

-- Every later run of the matching, whatever policies it finds.
unfoldable pub match_all : PythonWords → Thresholds → List (List Policy) → Session → Session
match_all py t [] s = s
match_all py t (pool ∷ pools) s = match_all py t pools (match_policies py t pool s).1

module _ (i p : ℕ) (actor : String) where
  -- What the choice leaves of the case and of the table.
  abbrev pub Settled : Session → Type 0
  Settled s =
      (s.case.id ≡ i)
      × (s.case.policy_id ≡ some p)
      × (s.case.policy_confirmed ≡ true)
      × Chosen i p actor s.db.policy_matches

  bind-confirmed :
      (strength : PolicyMatchStrength) (ranked : List PolicyCandidate) (c : FnolCase)
      → c.policy_confirmed ≡ true
      → bind strength ranked c ≡ c
  bind-confirmed PolicyMatchStrength.exact [] c h = refl
  bind-confirmed PolicyMatchStrength.exact (best ∷ rest) c h = rw h refl
  bind-confirmed PolicyMatchStrength.high ranked c h = refl
  bind-confirmed PolicyMatchStrength.possible ranked c h = refl
  bind-confirmed PolicyMatchStrength.none ranked c h = refl

  match_policies-Settled :
      (py : PythonWords) (t : Thresholds) (pool : List Policy) (s : Session)
      → Settled s
      → Settled (match_policies py t pool s).1
  unfolding match_policies
  match_policies-Settled py t pool s (at, policy, confirmed, k) =
      let ranked = rank_candidates py t s.case pool in
      let same = bind-confirmed (overall_strength t ranked) ranked s.case confirmed in
      (
        ap (λ (c : FnolCase). c.id) same ∙ at,
        ap (λ (c : FnolCase). c.policy_id) same ∙ policy,
        ap (λ (c : FnolCase). c.policy_confirmed) same ∙ confirmed,
        subst (λ j. Chosen i p actor (replace_policy_matches j ranked s.db).policy_matches) (sym at)
            (replace-Chosen i p actor ranked s.db k),
      )

  choose-Agreed :
      (rows : List FnolPolicyMatch) → Each (Agreed i p actor) (map (choose i p actor) rows)
  choose-Agreed [] = tt
  choose-Agreed (r ∷ rows) = (one, choose-Agreed rows)
    where
      one : (Agreed i p actor) (choose i p actor r)
      one = elim (Bool-cases (r.fnol_case_id == i)) [
        | inl t ↦ rw t (λ at. (refl, λ y. rw y refl))
        | inr n ↦ rw n (λ at.
            let no : true ≡ false = sym ((nat_eq.beq_decides r.fnol_case_id i).1 at) ∙ n in
            absurd cc)
      ]

  match_key-choose : (r : FnolPolicyMatch) → match_key (choose i p actor r) ≡ match_key r
  match_key-choose r = elim (Bool-cases (r.fnol_case_id == i)) [
    | inl t ↦ rw t refl
    | inr n ↦ rw n refl
  ]

  find-choose :
      (k : ℕ × ℕ) (rows : List FnolPolicyMatch) (m : FnolPolicyMatch)
      → find match_key k rows ≡ some m
      → find match_key k (map (choose i p actor) rows) ≡ some (choose i p actor m)
  unfolding find
  find-choose k [] m h = let no : none ≡ some m = h in cc
  find-choose k (r ∷ rows) m h = elim (Bool-cases (match_key r == k)) [
    | inl t ↦
        let now : (match_key (choose i p actor r) == k) ≡ true =
          ap (λ x. x == k) (match_key-choose r) ∙ t in
        let same : some r ≡ some m = rw t at h in rw now (ap (Option.map (choose i p actor)) same)
    | inr n ↦
        let later : (match_key (choose i p actor r) == k) ≡ false =
          ap (λ x. x == k) (match_key-choose r) ∙ n in
        rw later (find-choose k rows m (rw n at h))
  ]

  confirmed_as-kept :
      (q : Option Policy) (c : FnolCase)
      → ((confirmed_as q c).id ≡ c.id)
        × ((confirmed_as q c).policy_id ≡ c.policy_id)
        × ((confirmed_as q c).policy_confirmed ≡ c.policy_confirmed)
  confirmed_as-kept none c = (refl, refl, refl)
  confirmed_as-kept (some q) c =
      elim (Bool-cases (holds_text (as_text (c.column Attribute.insured_name)))) [
        | inl t ↦ rw t (refl, refl, refl)
        | inr n ↦ rw n (refl, refl, refl)
      ]

  found-Chosen :
      (rows : List FnolPolicyMatch) (m : FnolPolicyMatch)
      → find match_key (i, p) rows ≡ some m
      → Chosen i p actor (map (choose i p actor) rows)
  found-Chosen rows m h = (choose-Agreed rows, (choose i p actor m, find-choose (i, p) rows m h))

  match_all-Settled :
      (py : PythonWords) (t : Thresholds) (pools : List (List Policy)) (s : Session)
      → Settled s
      → Settled (match_all py t pools s)
  unfolding match_all
  match_all-Settled py t [] s h = h
  match_all-Settled py t (pool ∷ pools) s h =
      match_all-Settled py t pools _ (match_policies-Settled py t pool s h)

  Each-found :
      (k : ℕ × ℕ) (rows : List FnolPolicyMatch) (m : FnolPolicyMatch)
      → Each (Agreed i p actor) rows
      → find match_key k rows ≡ some m
      → (Agreed i p actor) m
  unfolding find
  Each-found k [] m a h = let no : none ≡ some m = h in cc
  Each-found k (r ∷ rows) m (now, later) h = elim (Bool-cases (match_key r == k)) [
    | inl t ↦ let same : some r ≡ some m = rw t at h in subst (Agreed i p actor) (some_inj same) now
    | inr n ↦ Each-found k rows m later (rw n at h)
  ]
    where
      some_inj : some r ≡ some m → r ≡ m
      some_inj e = ap (λ o. some_or o r) e

  Settled-row :
      (s : Session)
      → Settled s
      → (m : FnolPolicyMatch) × (get_policy_match i p s.db ≡ some m) × (m.selected_by ≡ some actor)
  unfolding get_policy_match
  Settled-row s (_, _, _, (a, (m, h))) =
      let key = find-key match_key (i, p) s.db.policy_matches h in
      let (here, who) = Each-found (i, p) s.db.policy_matches m a h (ap (λ k. k.0) key) in
      (m, h, who (here ∙ (nat_eq.beq_decides m.policy_id p).1 (ap (λ k. k.1) key)))

  -- A row of the case is selected exactly when it is that of the policy.
  Settled-selected :
      (s : Session) (q : ℕ) (m : FnolPolicyMatch)
      → Settled s
      → get_policy_match i q s.db ≡ some m
      → m.selected ≡ (q == p)
  unfolding get_policy_match
  Settled-selected s q m (_, _, _, (a, _)) h =
      let key = find-key match_key (i, q) s.db.policy_matches h in
      (Each-found (i, q) s.db.policy_matches m a h (ap (λ k. k.0) key)).0
      ∙ ap (λ x. x == p) (ap (λ k. k.1) key)

-- What a selection leaves.
abbrev SettledBy : ℕ → ℕ → String → Selection → Type 0
SettledBy i p actor no_candidate = Unit {0}
SettledBy i p actor (selected q s) = Settled i p actor s

select_found-Settled :
    (policies : ℕ → Option Policy) (p : ℕ) (actor : String) (s : Session)
    (row : Option FnolPolicyMatch)
    → find match_key (s.case.id, p) s.db.policy_matches ≡ row
    → SettledBy s.case.id p actor (select_found policies p actor s row)
select_found-Settled policies p actor s none h = tt
select_found-Settled policies p actor s (some m) h =
    let confirmed : FnolCase = record s.case { policy_id = some p; policy_confirmed = true } in
    let (at, policy, sure) = confirmed_as-kept s.case.id p actor (policies p) confirmed in
    (at, policy, sure, found-Chosen s.case.id p actor s.db.policy_matches m h)

select-Settled :
    (policies : ℕ → Option Policy) (p : ℕ) (actor : String) (s s' : Session) (q : Option Policy)
    → select policies p actor s ≡ selected q s'
    → Settled s.case.id p actor s'
unfolding select get_policy_match
select-Settled policies p actor s s' q e = subst (SettledBy s.case.id p actor) e (
    select_found-Settled policies p actor s (find match_key (s.case.id, p) s.db.policy_matches)
      refl)

-- When an officer selects a policy, it must be one of the candidates of the case; and after any later
-- runs of the matching, whatever policies they find, the case is still bound to it and confirmed, its
-- row is still there, selected in the officer's name, and no other candidate is selected.
pub match_all-select :
    (py : PythonWords) (t : Thresholds) (policies : ℕ → Option Policy) (p : ℕ) (actor : String)
    (s s' : Session) (q : Option Policy) (pools : List (List Policy))
    → select policies p actor s ≡ selected q s'
    → let s'' = match_all py t pools s' in
      (s''.case.policy_id ≡ some p)
      × (s''.case.policy_confirmed ≡ true)
      × ((m : FnolPolicyMatch) × (get_policy_match s.case.id p s''.db ≡ some m)
          × (m.selected_by ≡ some actor))
      × ((r : ℕ) (m : FnolPolicyMatch)
          → get_policy_match s.case.id r s''.db ≡ some m
          → m.selected ≡ (r == p))
match_all-select py t policies p actor s s' q pools e =
    let i = s.case.id in
    let last = match_all py t pools s' in
    let h = match_all-Settled i p actor py t pools s' (select-Settled policies p actor s s' q e) in
    (h.1, h.2, Settled-row i p actor last h, λ r m. Settled-selected i p actor last r m h)
