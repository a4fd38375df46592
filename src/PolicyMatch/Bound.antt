-- ===== src/PolicyMatch/Bound.antt =====
-- What an exact match of `app/domain/policy_match.py` is.
use claims_workbench_be.Common.{
  Bool, true, false, not, ◌&&◌, ◌||◌, Option, none, some, List, [], ◌∷◌, any, String, nat_eq,
  string_eq, ◌==◌, if◌then◌else◌, leb, ◌≡◌, ◌≢◌, refl, sym, ◌∙◌, ap, arith, Bool-cases, inl, inr,
}
use mathlib.Core.List.{Memᴰ}
use claims_workbench_be.Common.Each.{Each, ImageOf, Each-map, Each-keep, Each-take, Each-sort_by}
use claims_workbench_be.Enums.Assessment.{PolicyMatchStrength, policy_match_strength_eq}
use claims_workbench_be.Model.Case.{Attribute, FnolCase, as_text, as_stamp}
use claims_workbench_be.Model.Claims.{Policy}
use claims_workbench_be.Matching.{
  PythonWords, Ratio, none_of, all_of, weighted_score, normalise_reference,
}
use claims_workbench_be.PolicyMatch.{
  Signals, Thresholds, PolicyCandidate, at_least, reaches_one, not_zero, close, in_force_on,
  in_force_signal, weighted_signals, strength_of, number_signal, signals_of, score_policy,
  identified, scores_above, rank_candidates, overall_strength,
}

-- The tests behind an exact match, by themselves.
exact_tests :
    (a b h k : Bool)
    → (if a && (b && h)
        then PolicyMatchStrength.exact
        else if h
        then PolicyMatchStrength.high
        else if k
        then PolicyMatchStrength.possible
        else PolicyMatchStrength.none)
      ≡ PolicyMatchStrength.exact
    → (a ≡ true) × (b ≡ true) × (h ≡ true)
exact_tests a b h k e = ground arith

exact_cases :
    (score : Ratio) (s : Signals) (t : Thresholds)
    → strength_of score s t ≡ PolicyMatchStrength.exact
    → (reaches_one s.policy_number ≡ true)
      × (not_zero s.in_force ≡ true)
      × (at_least score t.high ≡ true)
unfolding strength_of
exact_cases score s t e =
    exact_tests (reaches_one s.policy_number) (not_zero s.in_force) (at_least score t.high)
      (at_least score t.candidate) e

-- The tests behind the signal of the number, by themselves.
number_tests :
    (a b c d : Bool)
    → reaches_one
        (if a || b then none else if c then some all_of else if d then some close else some none_of)
      ≡ true
    → (a ≡ false) × (c ≡ true)
number_tests true b c d h = cc
number_tests false true c d h = cc
number_tests false false true d h = (refl, refl)
number_tests false false false true h = cc
number_tests false false false false h = cc

number_signal-one :
    (py : PythonWords) (own theirs : String)
    → reaches_one (number_signal py own theirs) ≡ true
    → (own ≢ "") × (own ≡ theirs)
unfolding number_signal
number_signal-one py own theirs h =
    let (full, same) =
      number_tests (own == "") (theirs == "") (own == theirs)
        (py.strings.contains theirs own || py.strings.contains own theirs) h in
    (
      λ e. let no : true ≡ false = sym (equal own "" e) ∙ full in cc,
      (string_eq.beq_decides own theirs).0 same,
    )
  where
    equal : (x y : String) → x ≡ y → (x == y) ≡ true
    equal x y e = (string_eq.beq_decides x y).1 e

in_force_signal-zero : (b : Option Bool) → not_zero (in_force_signal b) ≡ true → b ≢ some false
in_force_signal-zero none h e = cc
in_force_signal-zero (some true) h e = cc
in_force_signal-zero (some false) h e = cc

module _ (py : PythonWords) (t : Thresholds) (c : FnolCase) where
  -- The candidates are scored policies of the pool.
  rank_candidates-ImageOf :
      (pool : List Policy) → Each (ImageOf (score_policy py t c) pool) (rank_candidates py t c pool)
  unfolding rank_candidates
  rank_candidates-ImageOf pool =
      let Scored = ImageOf (score_policy py t c) pool in
      Each-take Scored 5 _ (
        Each-sort_by Scored (scores_above py) _ (
          Each-keep Scored (λ (d : PolicyCandidate). leb t.candidate d.score) _
            (Each-keep Scored identified _ (Each-map (score_policy py t c) pool))))

  -- The number of the notification is the number of the policy, which was in force on the date of the
  -- loss, when there is one.
  abbrev pub Certain : Policy → Type 0
  Certain p =
      let own = normalise_reference py (as_text (c.column Attribute.policy_number)) in
      (own ≢ "")
      × (own ≡ normalise_reference py (some p.policy_number))
      × (in_force_on (as_stamp (c.column Attribute.date_of_loss)) p ≢ some false)

  score_policy-Certain :
      (p : Policy) → (score_policy py t c p).strength ≡ PolicyMatchStrength.exact → Certain p
  unfolding score_policy signals_of
  score_policy-Certain p e =
      let (number, force, _) =
        exact_cases (weighted_score (weighted_signals (signals_of py c p))) (signals_of py c p) t
          e in
      let (full, same) = number_signal-one py _ _ number in
      (full, same, in_force_signal-zero _ force)

  -- The rivals of the best candidate.
  abbrev pub none_high : List PolicyCandidate → Bool
  none_high rest = not (any (λ (d : PolicyCandidate). leb t.high d.score) rest)

  overall_strength-exact :
      (best : PolicyCandidate) (rest : List PolicyCandidate)
      → overall_strength t (best ∷ rest) ≡ PolicyMatchStrength.exact
      → (best.strength ≡ PolicyMatchStrength.exact) × (none_high rest ≡ true)
  unfolding overall_strength
  overall_strength-exact best rest e =
      elim (Bool-cases (any (λ (d : PolicyCandidate). leb t.high d.score) rest)) [
        | inl y ↦
            let no : PolicyMatchStrength.possible ≡ PolicyMatchStrength.exact = rw y at e in cc
        | inr n ↦ (rw n at e, rw n refl)
      ]

  -- What an exact overall strength says of the ranked candidates.
  abbrev pub Unambiguous : List Policy → List PolicyCandidate → Type 0
  Unambiguous pool [] = ⊥
  Unambiguous pool (best ∷ rest) =
      ((p : Policy) × Memᴰ p pool × (p.id ≡ best.policy_id) × Certain p) × (none_high rest ≡ true)

  unambiguous :
      (pool : List Policy) (ranked : List PolicyCandidate)
      → Each (ImageOf (score_policy py t c) pool) ranked
      → overall_strength t ranked ≡ PolicyMatchStrength.exact
      → Unambiguous pool ranked
  unfolding overall_strength score_policy
  unambiguous pool [] h e = cc
  unambiguous pool (best ∷ rest) ((p, m, same), _) e =
      let (exact, alone) = overall_strength-exact best rest e in
      (
        (
          p,
          m,
          ap (λ (d : PolicyCandidate). d.policy_id) same,
          score_policy-Certain p (ap (λ (d : PolicyCandidate). d.strength) same ∙ exact),
        ),
        alone,
      )

  pub rank_candidates-Unambiguous :
      (pool : List Policy)
      → overall_strength t (rank_candidates py t c pool) ≡ PolicyMatchStrength.exact
      → Unambiguous pool (rank_candidates py t c pool)
  rank_candidates-Unambiguous pool e =
      unambiguous pool (rank_candidates py t c pool) (rank_candidates-ImageOf pool) e
