-- ===== src/Common/Table.antt =====
-- A database table with a natural key: the rows as a list, read and changed by key. The repositories
-- of `app/repositories/` are written over it.
use mathlib.Core.Path.{◌≡◌, refl, subst, sym, ◌∙◌, ap}
use mathlib.Core.Logic.{◌≢◌, ◌↔◌, inl, inr}
use mathlib.Core.Bool.{Bool, true, false, ◌&&◌}
use mathlib.Core.Option
use mathlib.Core.Option.{Option, none, some}
use mathlib.Core.List.{List, [], ◌∷◌}
use native.Mathlib.Omega.{arith}
use claims_workbench_be.Common.Tests.{if◌then◌else◌, Option-cases, Bool-cases}
use claims_workbench_be.Common.Eq.{BEq, ◌==◌, eq_cases}

-- A composite key is compared part by part.
pub pair_beq_iff :
    {A B : Type 0} (ea : BEq A) (eb : BEq B) (p q : A × B)
    → ((ea.beq p.0 q.0 && eb.beq p.1 q.1) ≡ true) ↔ (p ≡ q)
pair_beq_iff ea eb p q = (
  λ h. λ i.
      ((ea.beq_decides p.0 q.0).0 (ground arith) i, (eb.beq_decides p.1 q.1).0 (ground arith) i),
  λ e. ground (
    arith,
    (ea.beq_decides p.0 q.0).1 (ap (λ r. r.0) e),
    (eb.beq_decides p.1 q.1).1 (ap (λ r. r.1) e),
  ),
)

instance abbrev pub pair_eq : {A B : Type 0} ⦃ea : BEq A⦄ ⦃eb : BEq B⦄ → BEq (A × B)
pair_eq ⦃ea⦄ ⦃eb⦄ = record {
  beq = λ p q. ea.beq p.0 q.0 && eb.beq p.1 q.1;
  beq_decides = pair_beq_iff ea eb;
}

module _ {Row K : Type 0} ⦃e : BEq K⦄ (key : Row → K) where
  unfoldable pub find : K → List Row → Option Row
  find k [] = none
  find k (r ∷ rows) = if key r == k then some r else find k rows

  -- An object that was read is mutated in place.
  unfoldable pub modify : K → (Row → Row) → List Row → List Row
  modify k f [] = []
  modify k f (r ∷ rows) = if key r == k then f r ∷ rows else r ∷ modify k f rows

  unfoldable pub delete : K → List Row → List Row
  delete k [] = []
  delete k (r ∷ rows) = if key r == k then rows else r ∷ delete k rows

  -- The unique constraint on the key.
  abbrev pub Unique : List Row → Type 0
  Unique [] = Unit
  Unique (r ∷ rows) = (find (key r) rows ≡ none) × Unique rows

  pub find-key : (k : K) (rows : List Row) {r : Row} → find k rows ≡ some r → key r ≡ k
  unfolding find
  find-key k [] h = cc
  find-key k (x ∷ rows) h = elim (eq_cases (key x) k) [
    | inl (t, p) ↦ ground (arith, find-key k rows)
    | inr (f, p) ↦ find-key k rows (rw f at h)
  ]

  pub find-cons :
      (k : K) (r : Row) (rows : List Row)
      → find k (r ∷ rows) ≡ (if key r == k then some r else find k rows)
  unfolding find
  find-cons k r rows = refl

  pub find-modify_self :
      (k : K) (f : Row → Row) (rows : List Row)
      → ((r : Row) → key (f r) ≡ key r)
      → find k (modify k f rows) ≡ Option.map f (find k rows)
  unfolding find modify
  find-modify_self k f [] h = refl
  find-modify_self k f (r ∷ rows) h = elim (eq_cases (key r) k) [
    | inl (t, p) ↦ rw t (rw (h r, t))
    | inr (n, p) ↦ rw n (rw n (find-modify_self k f rows h))
  ]

  pub find-modify_ne :
      (j k : K) (f : Row → Row) (rows : List Row)
      → ((r : Row) → key (f r) ≡ key r)
      → j ≢ k
      → find j (modify k f rows) ≡ find j rows
  unfolding find modify
  find-modify_ne j k f [] h ne = refl
  find-modify_ne j k f (r ∷ rows) h ne = elim (eq_cases (key r) k) [
    | inl (t, p) ↦ elim (eq_cases (key r) j) [
      | inl (s, q) ↦ absurd (ne (sym q ∙ p))
      | inr (s, q) ↦ rw t (rw (h r, s))
    ]
    | inr (n, p) ↦ rw n (rw (find-modify_ne j k f rows h ne))
  ]

  pub find-delete_ne : (j k : K) (rows : List Row) → j ≢ k → find j (delete k rows) ≡ find j rows
  unfolding find delete
  find-delete_ne j k [] ne = refl
  find-delete_ne j k (r ∷ rows) ne = elim (eq_cases (key r) k) [
    | inl (t, p) ↦ elim (eq_cases (key r) j) [
      | inl (s, q) ↦ absurd (ne (sym q ∙ p))
      | inr (s, q) ↦ rw t (rw s)
    ]
    | inr (n, p) ↦ rw n (rw (find-delete_ne j k rows ne))
  ]

  pub find-delete_self : (k : K) (rows : List Row) → Unique rows → find k (delete k rows) ≡ none
  unfolding find delete
  find-delete_self k [] u = refl
  find-delete_self k (r ∷ rows) u = elim (eq_cases (key r) k) [
    | inl (t, p) ↦ rw t (rw p at u.0)
    | inr (n, p) ↦ rw n (rw n (find-delete_self k rows u.1))
  ]

  pub modify-Unique :
      (k : K) (f : Row → Row) (rows : List Row)
      → ((r : Row) → key (f r) ≡ key r)
      → Unique rows
      → Unique (modify k f rows)
  unfolding modify
  modify-Unique k f [] h u = tt
  modify-Unique k f (r ∷ rows) h u = elim (eq_cases (key r) k) [
    | inl (t, p) ↦ rw t (rw (h r) u.0, u.1)
    | inr (n, p) ↦ rw n (find-modify_ne (key r) k f rows h p ∙ u.0, modify-Unique k f rows h u.1)
  ]

  pub delete-Unique : (k : K) (rows : List Row) → Unique rows → Unique (delete k rows)
  unfolding delete
  delete-Unique k [] u = tt
  delete-Unique k (r ∷ rows) u = elim (eq_cases (key r) k) [
    | inl (t, p) ↦ rw t u.1
    | inr (n, p) ↦ rw n (find-delete_ne (key r) k rows p ∙ u.0, delete-Unique k rows u.1)
  ]

  -- Update the row of the key, or add a new one.
  unfoldable pub upsert : K → Row → (Row → Row) → List Row → List Row
  upsert k new f rows = elim (find k rows) [ none ↦ new ∷ rows | some _ ↦ modify k f rows ]

  abbrev pub upserted : Row → (Row → Row) → Option Row → Row
  upserted new f none = new
  upserted new f (some r) = f r

  pub upsert_absent :
      (k : K) (new : Row) (f : Row → Row) (rows : List Row)
      → find k rows ≡ none
      → upsert k new f rows ≡ new ∷ rows
  unfolding upsert
  upsert_absent k new f rows h = rw (h, upsert)

  pub upsert_present :
      (k : K) (new : Row) (f : Row → Row) (rows : List Row) {r : Row}
      → find k rows ≡ some r
      → upsert k new f rows ≡ modify k f rows
  unfolding upsert
  upsert_present k new f rows h = rw (h, upsert)

  pub find-upsert :
      (j k : K) (new : Row) (f : Row → Row) (rows : List Row)
      → key new ≡ k
      → ((r : Row) → key (f r) ≡ key r)
      → find j (upsert k new f rows)
        ≡ (if k == j then some (upserted new f (find k rows)) else find j rows)
  find-upsert j k new f rows n h = elim (Option-cases (find k rows)) [
    | inl absent ↦ rw (upsert_absent k new f rows absent, find-cons j new rows) (rw (n, absent))
    | inr (r, present) ↦ rw (upsert_present k new f rows present) (elim (eq_cases k j) [
      | inl (t, p) ↦ rw (t, ← p) (rw (find-modify_self k f rows h, present))
      | inr (t, p) ↦ rw t (find-modify_ne j k f rows h (λ q. p (sym q)))
    ])
  ]

  pub upsert-Unique :
      (k : K) (new : Row) (f : Row → Row) (rows : List Row)
      → key new ≡ k
      → ((r : Row) → key (f r) ≡ key r)
      → Unique rows
      → Unique (upsert k new f rows)
  upsert-Unique k new f rows n h u = elim (Option-cases (find k rows)) [
    | inl absent ↦
        rw (upsert_absent k new f rows absent) (subst (λ j. find j rows ≡ none) (sym n) absent, u)
    | inr (r, present) ↦ rw (upsert_present k new f rows present) (modify-Unique k f rows h u)
  ]

  -- Delete the row of the key if it passes the test.
  unfoldable pub delete_when : K → (Row → Bool) → List Row → List Row
  delete_when k p rows = elim (find k rows) [
    | none ↦ rows
    | some r ↦ if p r then delete k rows else rows
  ]

  abbrev pub dropped : (Row → Bool) → Option Row → Option Row
  dropped p none = none
  dropped p (some r) = if p r then none else some r

  delete_when_absent :
      (k : K) (p : Row → Bool) (rows : List Row) → find k rows ≡ none → delete_when k p rows ≡ rows
  unfolding delete_when
  delete_when_absent k p rows h = rw (h, delete_when)

  delete_when_present :
      (k : K) (p : Row → Bool) (rows : List Row) {r : Row}
      → find k rows ≡ some r
      → delete_when k p rows ≡ (if p r then delete k rows else rows)
  unfolding delete_when
  delete_when_present k p rows h = rw (h, delete_when)

  find-if_delete :
      (j k : K) (b : Bool) (rows : List Row) {r : Row}
      → Unique rows
      → find k rows ≡ some r
      → find j (if b then delete k rows else rows)
        ≡ (if k == j then (if b then none else some r) else find j rows)
  find-if_delete j k true rows u h = elim (eq_cases k j) [
    | inl (t, same) ↦ rw t (rw (← same) (find-delete_self k rows u))
    | inr (t, other) ↦ rw t (find-delete_ne j k rows (λ q. other (sym q)))
  ]
  find-if_delete j k false rows u h = elim (eq_cases k j) [
    | inl (t, same) ↦ rw t (rw (← same) h)
    | inr (t, _) ↦ rw t
  ]

  pub find-delete_when :
      (j k : K) (p : Row → Bool) (rows : List Row)
      → Unique rows
      → find j (delete_when k p rows) ≡ (if k == j then dropped p (find k rows) else find j rows)
  find-delete_when j k p rows u = elim (Option-cases (find k rows)) [
    | inl absent ↦ rw (delete_when_absent k p rows absent) (elim (eq_cases k j) [
      | inl (t, same) ↦ rw (t, absent) (rw (← same) absent)
      | inr (t, _) ↦ rw t
    ])
    | inr (r, present) ↦
        rw (delete_when_present k p rows present)
          (find-if_delete j k (p r) rows u present ∙ rw present)
  ]

  pub delete_when-Unique :
      (k : K) (p : Row → Bool) (rows : List Row) → Unique rows → Unique (delete_when k p rows)
  delete_when-Unique k p rows u = elim (Option-cases (find k rows)) [
    | inl absent ↦ rw (delete_when_absent k p rows absent) u
    | inr (r, present) ↦ rw (delete_when_present k p rows present) (elim (Bool-cases (p r)) [
      | inl pass ↦ rw pass (delete-Unique k rows u)
      | inr stay ↦ rw stay u
    ])
  ]
