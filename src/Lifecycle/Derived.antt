-- ===== src/Lifecycle/Derived.antt =====
-- What `derive_status` of `app/domain/lifecycle.py` promises: it agrees with the blocker list, it
-- reads the codes as a set, and where its moves are legal.
use claims_workbench_be.Common.{
  Bool, true, false, ◌≡◌, refl, ◌↔◌, List, [], ◌∷◌, ◌==◌, ◌∈?◌, if◌then◌else◌, ◌||◌, arith,
  SameMembers, beq_self, ap, Bool-cases, inl, inr, keep, keep_cong, not, sym, ◌∙◌,
}
use claims_workbench_be.Enums.Intake.{FnolStatus, fnol_status_eq, ExceptionCode, exception_code_eq}
use claims_workbench_be.Lifecycle.{
  is_terminal, can_transition, derive_status, blocking_codes, first_status, status_for_exception,
  blocking_exceptions,
}

-- A case that the pipeline may still move: not terminal, and not referred by an officer.
abbrev pub is_active : FnolStatus → Bool
is_active status = not (is_terminal status || status == FnolStatus.referred)

table_ready :
    (raised : ExceptionCode → Bool)
    → (first_status status_for_exception raised FnolStatus.ready_for_claim
        ≡ FnolStatus.ready_for_claim)
      ↔ (keep raised blocking_exceptions ≡ [])
table_ready raised = (λ h. ground arith, λ h. ground arith)

derive_active :
    (current : FnolStatus) (open_codes : List ExceptionCode) (failed : Bool)
    → is_active current ≡ true
    → derive_status current open_codes failed ≡ (
        if failed
        then FnolStatus.ai_processing_failed
        else first_status status_for_exception
            (λ code. code ∈? open_codes)
            FnolStatus.ready_for_claim)
unfolding derive_status
derive_active FnolStatus.claim_created open_codes failed h = cc
derive_active FnolStatus.rejected open_codes failed h = cc
derive_active FnolStatus.cancelled open_codes failed h = cc
derive_active FnolStatus.referred open_codes failed h = cc
derive_active _ open_codes failed h = refl

derive_inactive :
    (current : FnolStatus) (open_codes : List ExceptionCode) (failed : Bool)
    → is_active current ≡ false
    → derive_status current open_codes failed ≡ current
unfolding derive_status
derive_inactive FnolStatus.claim_created open_codes failed h = refl
derive_inactive FnolStatus.rejected open_codes failed h = refl
derive_inactive FnolStatus.cancelled open_codes failed h = refl
derive_inactive FnolStatus.referred open_codes failed h = refl
derive_inactive _ open_codes failed h = cc

-- A case that may be moved, whose extraction succeeded, is `ready_for_claim` exactly when none of
-- its open exceptions blocks claim creation.
pub derive_status-ready_iff :
    (current : FnolStatus) (open_codes : List ExceptionCode)
    → is_active current ≡ true
    → (derive_status current open_codes false ≡ FnolStatus.ready_for_claim)
      ↔ (blocking_codes open_codes ≡ [])
unfolding blocking_codes
derive_status-ready_iff current open_codes h =
    rw (derive_active current open_codes false h) (table_ready (λ code. code ∈? open_codes))

first_status_cong :
    (table : List (ExceptionCode × FnolStatus)) (p q : ExceptionCode → Bool) (d : FnolStatus)
    → ((c : ExceptionCode) → p c ≡ q c)
    → first_status table p d ≡ first_status table q d
first_status_cong [] p q d h = refl
first_status_cong ((c, s) ∷ rest) p q d h = rw (h c, first_status_cong rest p q d h)

-- The status and the blocker list depend on the open codes as a set: order and repetition do not
-- matter.
pub derive_status_set :
    (current : FnolStatus) (failed : Bool) (xs ys : List ExceptionCode)
    → SameMembers xs ys
    → (derive_status current xs failed ≡ derive_status current ys failed)
      × (blocking_codes xs ≡ blocking_codes ys)
unfolding derive_status blocking_codes
derive_status_set current failed xs ys h = (
  rw (
      first_status_cong status_for_exception (λ c. c ∈? xs) (λ c. c ∈? ys)
        FnolStatus.ready_for_claim h),
  keep_cong (λ c. c ∈? xs) (λ c. c ∈? ys) h blocking_exceptions,
)

-- What the table of exceptions can yield.
abbrev is_derived : FnolStatus → Bool
is_derived status = status ∈? (
    FnolStatus.incomplete ∷ FnolStatus.policy_match_required ∷ FnolStatus.possible_duplicate
    ∷ FnolStatus.ready_for_claim ∷ [])

first_status-is_derived :
    (raised : ExceptionCode → Bool)
    → is_derived (first_status status_for_exception raised FnolStatus.ready_for_claim) ≡ true
first_status-is_derived raised = ground arith

derived_active : (s : FnolStatus) → is_derived s ≡ true → is_active s ≡ true
unfolding is_terminal
derived_active s h = ground arith

-- Whether the table lists the move to a derived status.
abbrev pub may_derive : FnolStatus → FnolStatus → Bool
may_derive current derived =
    not (current ∈? (FnolStatus.received ∷ FnolStatus.ai_processing_failed ∷ []))
    || derived == FnolStatus.incomplete

derived_legal :
    (current s : FnolStatus)
    → is_active current ≡ true
    → is_derived s ≡ true
    → can_transition current s ≡ may_derive current s
unfolding is_terminal can_transition
derived_legal current s active derived = ground arith

inactive_legal :
    (current : FnolStatus) → is_active current ≡ false → may_derive current current ≡ true
unfolding is_terminal
inactive_legal current still = ground arith

can_transition_self : (s : FnolStatus) → can_transition s s ≡ true
unfolding can_transition
can_transition_self s = rw (beq_self s)

active_failed : is_active FnolStatus.ai_processing_failed ≡ true
unfolding is_terminal
active_failed = refl

failed_legal :
    (current : FnolStatus)
    → is_active current ≡ true
    → can_transition current FnolStatus.ai_processing_failed ≡ (
        current
        ∈? (FnolStatus.received ∷ FnolStatus.processing ∷ FnolStatus.ai_processing_failed ∷ []))
unfolding is_terminal can_transition
failed_legal current active = ground arith

-- Deriving again from the derived status, with the same findings, changes nothing.
pub derive_status_idem :
    (current : FnolStatus) (open_codes : List ExceptionCode) (failed : Bool)
    → derive_status (derive_status current open_codes failed) open_codes failed
      ≡ derive_status current open_codes failed
derive_status_idem current open_codes failed = elim (Bool-cases (is_active current)) [
  | inl active ↦ settled failed active
  | inr still ↦
      ap (λ s. derive_status s open_codes failed) (derive_inactive current open_codes failed still)
]
  where
    settled :
        (f : Bool)
        → is_active current ≡ true
        → derive_status (derive_status current open_codes f) open_codes f
          ≡ derive_status current open_codes f
    settled true active =
        rw (derive_active current open_codes true active)
          (derive_active FnolStatus.ai_processing_failed open_codes true (active_failed))
    settled false active = rw (derive_active current open_codes false active) (
        derive_active _ open_codes false
          (derived_active _ (first_status-is_derived (λ code. code ∈? open_codes))))

-- When extraction succeeded, the move that `derive_status` makes is one that the table of legal
-- transitions allows, except from `received` and from `ai_processing_failed` to anything but
-- `incomplete`: those moves the table does not list.
pub derive_status_legal_iff :
    (current : FnolStatus) (open_codes : List ExceptionCode)
    → let derived = derive_status current open_codes false in
      can_transition current derived ≡ (
        not (current ∈? (FnolStatus.received ∷ FnolStatus.ai_processing_failed ∷ []))
        || derived == FnolStatus.incomplete)
derive_status_legal_iff current open_codes = elim (Bool-cases (is_active current)) [
  | inl active ↦
      rw (derive_active current open_codes false active)
        (derived_legal current _ active (first_status-is_derived (λ code. code ∈? open_codes)))
  | inr still ↦
      rw (derive_inactive current open_codes false still)
        (can_transition_self current ∙ sym (inactive_legal current still))
]

-- After a failed extraction the move to `ai_processing_failed` is legal exactly from three of the
-- statuses that may be moved: from the others the table does not list it.
pub derive_status_failed_legal_iff :
    (current : FnolStatus) (open_codes : List ExceptionCode)
    → is_active current ≡ true
    → can_transition current (derive_status current open_codes true) ≡ (
        current
        ∈? (FnolStatus.received ∷ FnolStatus.processing ∷ FnolStatus.ai_processing_failed ∷ []))
derive_status_failed_legal_iff current open_codes active =
    rw (derive_active current open_codes true active) (failed_legal current active)
