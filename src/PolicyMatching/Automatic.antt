-- ===== src/PolicyMatching/Automatic.antt =====
-- The policy that a run of `PolicyMatchingService.match` of `app/services/fnol/matching.py` binds by
-- itself.
use claims_workbench_be.Common.{
  true, some, List, [], ◌∷◌, ◌≡◌, ◌⊎◌, refl, sym, ap, Bool-cases, inl, inr,
}
use mathlib.Core.List.{Memᴰ}
use claims_workbench_be.Enums.Assessment.{PolicyMatchStrength}
use claims_workbench_be.Model.Case.{FnolCase}
use claims_workbench_be.Model.Claims.{Policy}
use claims_workbench_be.Session.{Session}
use claims_workbench_be.Matching.{PythonWords}
use claims_workbench_be.PolicyMatch.{Thresholds, PolicyCandidate, rank_candidates, overall_strength}
use claims_workbench_be.PolicyMatch.Bound.{
  Certain, none_high, Unambiguous, rank_candidates-Unambiguous,
}
use claims_workbench_be.PolicyMatching.{bind, match_policies}

module _ (py : PythonWords) (t : Thresholds) where
  -- The policy of the case is the one it had, or the certain one that no candidate rivals.
  abbrev pub Bound : FnolCase → List Policy → List PolicyCandidate → FnolCase → Type 0
  Bound c pool ranked c' =
      (c' ≡ c)
      ⊎ ((p : Policy) × (best : PolicyCandidate) × (rest : List PolicyCandidate) × Memᴰ p pool
          × (c'.policy_id ≡ some p.id)
          × Certain py t c p
          × (ranked ≡ best ∷ rest)
          × (none_high py t c rest ≡ true))

  bind-Bound :
      (c : FnolCase) (pool : List Policy) (strength : PolicyMatchStrength)
      (ranked : List PolicyCandidate)
      → (strength ≡ PolicyMatchStrength.exact → Unambiguous py t c pool ranked)
      → Bound c pool ranked (bind strength ranked c)
  bind-Bound c pool PolicyMatchStrength.exact [] h = inl refl
  bind-Bound c pool PolicyMatchStrength.exact (best ∷ rest) h =
      elim (Bool-cases c.policy_confirmed) [
        | inl y ↦ rw y (inl refl)
        | inr n ↦
            let ((p, m, same, certain), alone) = h refl in
            rw n (inr (p, best, rest, m, ap some (sym same), certain, refl, alone))
      ]
  bind-Bound c pool PolicyMatchStrength.high ranked h = inl refl
  bind-Bound c pool PolicyMatchStrength.possible ranked h = inl refl
  bind-Bound c pool PolicyMatchStrength.none ranked h = inl refl

  -- A run of the matching leaves the case as it was, or binds it to a policy that was among the policies
  -- found for it, whose number is that of the notification up to spelling, which was not out of force
  -- on the date of the loss, and such that no other candidate reaches the high threshold.
  pub match_policies-Bound :
      (pool : List Policy) (s : Session)
      → Bound s.case pool (rank_candidates py t s.case pool) (match_policies py t pool s).1.case
  unfolding match_policies
  match_policies-Bound pool s =
      bind-Bound s.case pool (overall_strength t (rank_candidates py t s.case pool))
        (rank_candidates py t s.case pool) (rank_candidates-Unambiguous py t s.case pool)
