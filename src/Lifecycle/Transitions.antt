-- ===== src/Lifecycle/Transitions.antt =====
-- What the table of legal transitions of `app/domain/lifecycle.py` amounts to, over any sequence of
-- legal moves.
use claims_workbench_be.Common.{true, false, ◌≡◌, refl, ◌⊎◌, inl, inr, ◌∙◌, subst, arith}
use claims_workbench_be.Enums.Intake.{FnolStatus, fnol_status_eq}
use claims_workbench_be.Lifecycle.{is_terminal, can_transition}

-- A history of legal moves.
pub data Moves : FnolStatus → FnolStatus → Type 0 where
  here : {s : FnolStatus} → Moves s s
  move : {s t u : FnolStatus} → can_transition s t ≡ true → Moves t u → Moves s u

-- A legal move out of a terminal status stays there.
terminal_stuck : (s t : FnolStatus) → is_terminal s ≡ true → can_transition s t ≡ true → s ≡ t
unfolding is_terminal can_transition
terminal_stuck s t h m = ground arith

-- From a terminal status, any sequence of legal moves ends where it began.
pub terminal-Moves : {s t : FnolStatus} → is_terminal s ≡ true → Moves s t → s ≡ t
terminal-Moves h here = refl
terminal-Moves h (move {s} {t} m rest) =
    let e : s ≡ t = terminal_stuck s t h m in
    e ∙ terminal-Moves (subst (λ x. is_terminal x ≡ true) e h) rest

-- One move into `claim_created` starts there or at `ready_for_claim`.
into_claim_created :
    (s : FnolStatus)
    → can_transition s FnolStatus.claim_created ≡ true
    → (s ≡ FnolStatus.claim_created) ⊎ (s ≡ FnolStatus.ready_for_claim)
unfolding can_transition
into_claim_created s m = ground arith

-- That a history stands at a status somewhere, its two ends included.
abbrev pub Visits : {s t : FnolStatus} → FnolStatus → Moves s t → Type 0
Visits x (here {s}) = s ≡ x
Visits x (move {s} m rest) = (s ≡ x) ⊎ Visits x rest

-- A history of legal moves that ends in `claim_created` began there, or stood at `ready_for_claim` on
-- the way.
pub claim_created_through_ready :
    {s t : FnolStatus} (history : Moves s t)
    → t ≡ FnolStatus.claim_created
    → (s ≡ FnolStatus.claim_created) ⊎ Visits FnolStatus.ready_for_claim history
claim_created_through_ready here e = inl e
claim_created_through_ready (move {s} {t} m rest) e = elim (claim_created_through_ready rest e) [
  | inl at ↦ elim (into_claim_created s (subst (λ x. can_transition s x ≡ true) at m)) [
    | inl same ↦ inl same
    | inr ready ↦ inr (inl ready)
  ]
  | inr later ↦ inr (inr later)
]

to_processing :
    (s : FnolStatus) → is_terminal s ≡ false → can_transition s FnolStatus.processing ≡ true
unfolding is_terminal can_transition
to_processing s h = ground arith

to_cancelled :
    (s : FnolStatus) → is_terminal s ≡ false → can_transition s FnolStatus.cancelled ≡ true
unfolding is_terminal can_transition
to_cancelled s h = ground arith

-- Every status that is not terminal has legal moves to `claim_created`, and may be cancelled in one.
pub open-Moves :
    (s : FnolStatus)
    → is_terminal s ≡ false
    → Moves s FnolStatus.claim_created × (can_transition s FnolStatus.cancelled ≡ true)
unfolding can_transition
open-Moves s h = (
  move {t = FnolStatus.processing} (to_processing s h)
      (move {t = FnolStatus.ready_for_claim} refl (move {t = FnolStatus.claim_created} refl here)),
  to_cancelled s h,
)
