-- ===== src/Triage/Best.antt =====
-- The handler that `recommend_assignment` of `app/domain/triage.py` names.
use claims_workbench_be.Common.{
  ℕ, ◌≤◌, Bool, true, false, not, ◌&&◌, ◌||◌, ◌≡◌, refl, ◌↔◌, ◌∙◌, subst, sym, inl, inr, Option,
  none, some, List, [], ◌∷◌, String, all, map, keep, if◌then◌else◌, leb, ltb, arith, Bool-cases,
  and_true,
}
use mathlib.Core.List.{Memᴰ}
use claims_workbench_be.Enums.Assessment.{LineOfBusiness, Severity}
use claims_workbench_be.Enums.Claims.{AssignmentStrategy}
use claims_workbench_be.Model.Case.{holds_text}
use claims_workbench_be.Model.Claims.{Handler}
use claims_workbench_be.Triage.{RouteDefinition}
use claims_workbench_be.Triage.Handlers.{
  HandlerScore, is_eligible, insert, ranked, best_of, score_handler, recommend_assignment,
  strategy_of, has_skill, may_handle, authority, capacity_of, nonempty,
}

abbrev pick : HandlerScore → Option HandlerScore → HandlerScore
pick x none = x
pick x (some y) = if leb y.score x.score then x else y

best_of-insert :
    (x : HandlerScore) (ys : List HandlerScore) → best_of (insert x ys) ≡ some (pick x (best_of ys))
best_of-insert x [] = refl
best_of-insert x (y ∷ ys) = ground arith

abbrev champion : List HandlerScore → Option HandlerScore
champion [] = none
champion (x ∷ xs) = if is_eligible x then some (pick x (champion xs)) else champion xs

pick_first : (x y : HandlerScore) → leb y.score x.score ≡ true → pick x (some y) ≡ x
pick_first x y h = rw h

pick_second : (x y : HandlerScore) → leb y.score x.score ≡ false → pick x (some y) ≡ y
pick_second x y h = rw h

champion_first :
    (x : HandlerScore) (xs : List HandlerScore)
    → is_eligible x ≡ true
    → champion (x ∷ xs) ≡ some (pick x (champion xs))
champion_first x xs h = rw h

champion_rest :
    (x : HandlerScore) (xs : List HandlerScore)
    → is_eligible x ≡ false
    → champion (x ∷ xs) ≡ champion xs
champion_rest x xs h = rw h

best_of-ranked : (xs : List HandlerScore) → best_of (ranked (keep is_eligible xs)) ≡ champion xs
unfolding ranked
best_of-ranked [] = refl
best_of-ranked (x ∷ xs) = elim (Bool-cases (is_eligible x)) [
  | inl t ↦ rw t (best_of-insert x (ranked (keep is_eligible xs)) ∙ rw (best_of-ranked xs))
  | inr f ↦ rw f (best_of-ranked xs)
]

-- No score of an eligible candidate is above `s`.
abbrev pub at_most : ℕ → HandlerScore → Bool
at_most s y = not (is_eligible y) || leb y.score s

at_most_trans :
    (s t : ℕ) (xs : List HandlerScore)
    → s ≤ t
    → all (at_most s) xs ≡ true
    → all (at_most t) xs ≡ true
at_most_trans s t [] h a = refl
at_most_trans s t (x ∷ xs) h a =
    let (now, later) = and_true (at_most s x) (all (at_most s) xs) a in
    ground (arith, at_most_trans s t xs h later)

module _ (f : Handler → HandlerScore) where
  -- The score of one of the handlers that is eligible and that no other beats.
  abbrev pub Wins : List Handler → HandlerScore → Type 0
  Wins ws h =
      ((w : Handler) × Memᴰ w ws × (f w ≡ h))
      × (is_eligible h ≡ true)
      × (all (at_most h.score) (map f ws) ≡ true)

  abbrev pub Outcome : List Handler → Option HandlerScore → Type 0
  Outcome ws none = all (λ y. not (is_eligible y)) (map f ws) ≡ true
  Outcome ws (some h) = Wins ws h

  skip_lem :
      (w : Handler) (ws : List Handler) (best : Option HandlerScore)
      → is_eligible (f w) ≡ false
      → Outcome ws best
      → Outcome (w ∷ ws) best
  skip_lem w ws none n a = ground arith
  skip_lem w ws (some h) n ((v, m, s), t, a) = ((v, Memᴰ.tail m, s), t, ground arith)

  none_eligible :
      (s : ℕ) (xs : List HandlerScore)
      → all (λ y. not (is_eligible y)) xs ≡ true
      → all (at_most s) xs ≡ true
  none_eligible s [] a = refl
  none_eligible s (x ∷ xs) a =
      let (now, later) = and_true (not (is_eligible x)) (all (λ y. not (is_eligible y)) xs) a in
      ground (arith, none_eligible s xs later)

  take_lem :
      (w : Handler) (ws : List Handler) (best : Option HandlerScore)
      → is_eligible (f w) ≡ true
      → Outcome ws best
      → Outcome (w ∷ ws) (some (pick (f w) best))
  take_lem w ws none t a =
      ((w, Memᴰ.head refl, refl), t, ground (arith, none_eligible (f w).score (map f ws) a))
  take_lem w ws (some h) t ((v, m, s), u, a) = elim (Bool-cases (leb h.score (f w).score)) [
    | inl y ↦
        subst (λ best. Outcome (w ∷ ws) (some best)) (sym (pick_first (f w) h y))
          (
            (w, Memᴰ.head refl, refl),
            t,
            ground (arith, at_most_trans h.score (f w).score (map f ws) (ground arith) a),
          )
    | inr n ↦
        subst (λ best. Outcome (w ∷ ws) (some best)) (sym (pick_second (f w) h n))
          ((v, Memᴰ.tail m, s), u, ground arith)
  ]

  champion_lem : (ws : List Handler) → Outcome ws (champion (map f ws))
  champion_lem [] = refl
  champion_lem (w ∷ ws) = elim (Bool-cases (is_eligible (f w))) [
    | inl t ↦
        subst (λ best. Outcome (w ∷ ws) best) (sym (champion_first (f w) (map f ws) t))
          (take_lem w ws _ t (champion_lem ws))
    | inr n ↦
        subst (λ best. Outcome (w ∷ ws) best) (sym (champion_rest (f w) (map f ws) n))
          (skip_lem w ws _ n (champion_lem ws))
  ]

-- What makes a handler eligible.
abbrev pub qualifies : (String → String) → RouteDefinition → Option Severity → Handler → Bool
qualifies lower route severity w =
    has_skill (map lower w.skills) (nonempty route.required_skill)
    && (may_handle (authority w.max_severity) severity && ltb w.open_claims (capacity_of w))

queue_iff :
    (best : Option HandlerScore) (skill : Option String)
    → (strategy_of best skill ≡ AssignmentStrategy.queue) ↔ (best ≡ none)
queue_iff none skill = (λ e. refl, λ e. refl)
queue_iff (some h) skill = (λ e. absurd (not_queue (holds_text skill) e), λ e. cc)
  where
    not_queue :
        (b : Bool)
        → (if b then AssignmentStrategy.skill_based else AssignmentStrategy.workload)
          ≡ AssignmentStrategy.queue
        → ⊥
    not_queue true e = cc
    not_queue false e = cc

is_eligible-score_handler :
    (lower : String → String) (route : RouteDefinition) (severity : Option Severity)
    (line : Option LineOfBusiness) (country : Option String) (w : Handler)
    → is_eligible (score_handler lower route severity line country w)
      ≡ qualifies lower route severity w
unfolding score_handler
is_eligible-score_handler lower route severity line country w = ground arith

-- Either no handler is eligible and none is named, so that the claim goes to a queue, or the named
-- one is a handler that holds the skill the route requires, is authorised to the severity and is
-- below capacity, and no eligible handler scores higher.
pub recommend_assignment_lem :
    (lower : String → String) (route : RouteDefinition) (severity : Option Severity)
    (line : Option LineOfBusiness) (country : Option String) (handlers : List Handler)
    → let r = recommend_assignment lower route severity line country handlers in
      let f = score_handler lower route severity line country in
      Outcome f handlers r.handler
      × ((w : Handler) → is_eligible (f w) ≡ qualifies lower route severity w)
      × ((r.strategy ≡ AssignmentStrategy.queue) ↔ (r.handler ≡ none))
unfolding recommend_assignment
recommend_assignment_lem lower route severity line country handlers =
    let f = score_handler lower route severity line country in
    (
      subst (λ best. Outcome f handlers best) (sym (best_of-ranked (map f handlers)))
          (champion_lem f handlers),
      is_eligible-score_handler lower route severity line country,
      queue_iff _ route.required_skill,
    )
