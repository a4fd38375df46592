-- ===== src/Assessment/SeverityBand/Floors.antt =====
-- What `assess_severity` of `app/domain/assessment.py` promises: money sets the floor, and the facts can
-- only push the band up.
use claims_workbench_be.Common.{
  ℕ, ◌+◌, ◌≤◌, Bool, true, false, not, ◌&&◌, ◌||◌, Option, none, some, List, [], ◌∷◌, ◌≡◌, refl,
  sym, ◌∙◌, ap, ltb, leb, arith, Bool-cases, inl, inr, all, and_true_right,
}
use claims_workbench_be.Enums.Assessment.{Severity, severity_rank}
use claims_workbench_be.Model.Case.{Attribute, FnolCase, as_number}
use claims_workbench_be.Assessment.SeverityBand.{
  Bands, SeverityResult, Escalation, escalations, money_band, money_start, raised_to, capped,
  escalate, escalate_all, near_limit, near_limit_step, assess_severity,
}

-- A band is at most another.
abbrev pub within_band : Severity → Severity → Bool
within_band a b = leb (severity_rank a) (severity_rank b)

raised_to-within :
    (floor band s : Severity)
    → within_band (raised_to floor band) s ≡ (within_band band s && within_band floor s)
raised_to-within floor band s = elim (Bool-cases (ltb (severity_rank band) (severity_rank floor))) [
  | inl t ↦ rw t (later (severity_rank band) (severity_rank floor) (severity_rank s) t)
  | inr f ↦ rw f (sooner (severity_rank band) (severity_rank floor) (severity_rank s) f)
]
  where
    later : (b f s : ℕ) → ltb b f ≡ true → leb f s ≡ (leb b s && leb f s)
    later b f s h = ground arith

    sooner : (b f s : ℕ) → ltb b f ≡ false → leb b s ≡ (leb b s && leb f s)
    sooner b f s h = ground arith

-- An escalation calls for no more than a band.
abbrev pub allows : Severity → Escalation → Bool
allows s e = not e.applies || within_band e.floor s

escalate-within :
    (e : Escalation) (r : SeverityResult) (s : Severity)
    → within_band (escalate e r).severity s ≡ (within_band r.severity s && allows s e)
escalate-within e r s = elim (Bool-cases e.applies) [
  | inl t ↦ rw t (raised_to-within e.floor r.severity s)
  | inr f ↦ rw f (sym (and_true_right (within_band r.severity s)))
]

and_assoc : (a b c : Bool) → ((a && b) && c) ≡ (a && (b && c))
and_assoc true b c = refl
and_assoc false b c = refl

escalate_all-within :
    (es : List Escalation) (r : SeverityResult) (s : Severity)
    → within_band (escalate_all es r).severity s ≡ (within_band r.severity s && all (allows s) es)
unfolding escalate_all
escalate_all-within [] r s = sym (and_true_right (within_band r.severity s))
escalate_all-within (e ∷ es) r s =
    escalate_all-within es (escalate e r) s
    ∙ (ap (λ b. b && all (allows s) es) (escalate-within e r s)
        ∙ and_assoc (within_band r.severity s) (allows s e) (all (allows s) es))

near_limit_step-within :
    (near : Bool) (r : SeverityResult) (s : Severity)
    → within_band (near_limit_step near r).severity s
      ≡ (within_band r.severity s && (not near || within_band Severity.high s))
near_limit_step-within true r s = raised_to-within Severity.high r.severity s
near_limit_step-within false r s = sym (and_true_right (within_band r.severity s))

money_start-band :
    (bands : Bands) (estimate : Option ℕ)
    → (money_start bands estimate).severity ≡ money_band bands estimate
money_start-band bands none = refl
money_start-band bands (some n) = refl

abbrev Sure : SeverityResult → Type 0
Sure r = (35 ≤ r.confidence) × (r.confidence ≤ 95)

capped_lem : (n : ℕ) → 35 ≤ n → (35 ≤ capped n) × (capped n ≤ 95)
capped_lem n h = ground arith

escalate-Sure : (e : Escalation) (r : SeverityResult) → Sure r → Sure (escalate e r)
escalate-Sure e r (low, high) = elim (Bool-cases e.applies) [
  | inl t ↦ rw t (capped_lem (r.confidence + 5) (omega arith))
  | inr f ↦ rw f (low, high)
]

escalate_all-Sure : (es : List Escalation) (r : SeverityResult) → Sure r → Sure (escalate_all es r)
unfolding escalate_all
escalate_all-Sure [] r h = h
escalate_all-Sure (e ∷ es) r h = escalate_all-Sure es (escalate e r) (escalate-Sure e r h)

near_limit_step-Sure : (near : Bool) (r : SeverityResult) → Sure r → Sure (near_limit_step near r)
near_limit_step-Sure true r h = h
near_limit_step-Sure false r h = h

money_start-Sure : (bands : Bands) (estimate : Option ℕ) → Sure (money_start bands estimate)
money_start-Sure bands none = (omega arith, omega arith)
money_start-Sure bands (some n) = (omega arith, omega arith)

-- The severity of a loss is the least band that is no less than the band of the estimate alone, the
-- floor of every fact that applies, and, when the estimate is at three quarters of the policy limit or
-- more, the high band. Its confidence is at least 0.35 and at most 0.95.
pub assess_severity_lem :
    (bands : Bands) (limit : Option ℕ) (cat_matched : Bool) (c : FnolCase)
    → let estimate = as_number (c.column Attribute.estimated_loss_minor) in
      let r = assess_severity bands limit cat_matched c in
      ((s : Severity)
        → within_band r.severity s ≡ (
            within_band (money_band bands estimate) s
            && (all (allows s) (escalations c cat_matched)
                && (not (near_limit limit estimate) || within_band Severity.high s))))
      × (35 ≤ r.confidence)
      × (r.confidence ≤ 95)
unfolding assess_severity
assess_severity_lem bands limit cat_matched c =
    let estimate = as_number (c.column Attribute.estimated_loss_minor) in
    let es = escalations c cat_matched in
    let start = money_start bands estimate in
    let near = near_limit limit estimate in
    let sure =
      near_limit_step-Sure near (escalate_all es start)
        (escalate_all-Sure es start (money_start-Sure bands estimate)) in
    (
      λ s.
          near_limit_step-within near (escalate_all es start) s
          ∙ (ap (λ b. b && (not near || within_band Severity.high s))
                (escalate_all-within es start s
                  ∙ ap (λ m. within_band m s && all (allows s) es)
                      (money_start-band bands estimate))
              ∙ and_assoc (within_band (money_band bands estimate) s) (all (allows s) es)
                  (not near || within_band Severity.high s)),
      sure.0,
      sure.1,
    )
