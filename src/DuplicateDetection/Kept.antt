-- ===== src/DuplicateDetection/Kept.antt =====
-- What an officer decided of a duplicate candidate outlasts every later scan (`upsert_duplicate` and
-- `prune_duplicates` of `app/repositories/fnol.py`).
use claims_workbench_be.Common.{
  ℕ, Bool, true, false, not, ◌||◌, Option, some, some_or, List, [], ◌∷◌, map, keep, String, nat_eq,
  string_eq, ◌==◌, ◌∈?◌, ◌≡◌, ◌≢◌, refl, sym, ◌∙◌, ap, arith, Bool-cases, inl, inr, eq_cases,
}
use claims_workbench_be.Common.Table.{find, upserted, find-upsert, pair_eq}
use claims_workbench_be.Enums.Intake.{DuplicateResolution, duplicate_resolution_eq}
use claims_workbench_be.References.{Text}
use claims_workbench_be.Model.Case.{FnolCase}
use claims_workbench_be.Model.Claims.{Claim}
use claims_workbench_be.Model.Rows.{FnolDuplicateCandidate}
use claims_workbench_be.Model.Db.{Db}
use claims_workbench_be.Repository.Duplicates.{
  duplicate_key, is_unresolved, new_duplicate, rescored_duplicate, upsert_duplicate,
  prune_duplicates,
}
use claims_workbench_be.Session.{Session}
use claims_workbench_be.Matching.{PythonWords}
use claims_workbench_be.DuplicateDetection.{DuplicateAssessment, store_duplicates, scoring, detect}

-- Every later scan, whatever notices and claims it finds.
unfoldable pub detect_all :
    PythonWords → (Text → String) → ℕ → List (List FnolCase × List Claim) → Session → Session
detect_all py spell threshold [] s = s
detect_all py spell threshold ((notices, claims) ∷ rest) s =
    detect_all py spell threshold rest (detect py spell threshold notices claims s).1

or_or_true : (a b : Bool) → (a || (b || true)) ≡ true
or_or_true a b = ground arith

module _ (i : ℕ) (reference : String) (d : FnolDuplicateCandidate) where
  -- The candidate of the reference has what was decided of `d`.
  abbrev pub Stands : List FnolDuplicateCandidate → Type 0
  Stands rows =
      (g : FnolDuplicateCandidate) × (find duplicate_key (i, reference) rows ≡ some g)
      × ((g.resolution ≡ d.resolution)
          × (g.resolved_by ≡ d.resolved_by)
          × (g.resolved_at ≡ d.resolved_at)
          × (g.resolution_note ≡ d.resolution_note))

  upsert_duplicate-Stands :
      (j : ℕ) (kind other : String) (score : ℕ) (f c : Option ℕ) (db : Db)
      → Stands db.duplicates
      → Stands (upsert_duplicate j kind other score f c db).duplicates
  unfolding upsert_duplicate
  upsert_duplicate-Stands j kind other score f c db (g, h, same) =
      let new = new_duplicate db.next_id j kind other score f c in
      let e =
        find-upsert duplicate_key (i, reference) (j, other) new (rescored_duplicate score)
          db.duplicates refl (λ r. refl) in
      elim (eq_cases {A = ℕ × String} (j, other) (i, reference)) [
        | inl (t, at) ↦
            let met : find duplicate_key (j, other) db.duplicates ≡ some g =
              ap (λ k. find duplicate_key k db.duplicates) at ∙ h in
            (
              rescored_duplicate score g,
              e
                  ∙ rw t (
                      ap (λ o. some (upserted duplicate_key new (rescored_duplicate score) o)) met),
              same,
            )
        | inr (n, _) ↦ (g, e ∙ rw n h, same)
      ]

  keep_found :
      (p : FnolDuplicateCandidate → Bool) (rows : List FnolDuplicateCandidate)
      (g : FnolDuplicateCandidate)
      → find duplicate_key (i, reference) rows ≡ some g
      → p g ≡ true
      → find duplicate_key (i, reference) (keep p rows) ≡ some g
  unfolding find
  keep_found p [] g h y = h
  keep_found p (r ∷ rows) g h y =
      let k : ℕ × String = (i, reference) in
      elim (Bool-cases (duplicate_key r == k)) [
        | inl t ↦
            let here : some r ≡ some g = rw t at h in
            let passes : p r ≡ true = ap (λ o. p (some_or o r)) here ∙ y in rw passes (rw t here)
        | inr n ↦
            let later = keep_found p rows g (rw n at h) y in
            elim (Bool-cases (p r)) [ inl t ↦ rw t (rw n later) | inr f ↦ rw f later ]
      ]

  store_duplicates-Stands :
      (j : ℕ) (found : List DuplicateAssessment) (db : Db)
      → Stands db.duplicates
      → Stands (store_duplicates j found db).duplicates
  unfolding store_duplicates
  store_duplicates-Stands j [] db h = h
  store_duplicates-Stands j (a ∷ rest) db h =
      store_duplicates-Stands j rest _ (upsert_duplicate-Stands j _ _ _ _ _ db h)

  prune_duplicates-Stands :
      (j : ℕ) (references : List String) (db : Db)
      → d.resolution ≢ DuplicateResolution.unresolved
      → Stands db.duplicates
      → Stands (prune_duplicates j references db).duplicates
  unfolding prune_duplicates
  prune_duplicates-Stands j references db n (g, h, same) =
      (g, keep_found _ db.duplicates g h (stays (decided same.0)), same)
    where
      decided : g.resolution ≡ d.resolution → is_unresolved g ≡ false
      decided e = elim (eq_cases g.resolution DuplicateResolution.unresolved) [
        | inl (_, undecided) ↦ absurd (n (sym e ∙ undecided))
        | inr (f, _) ↦ f
      ]

      stays :
          is_unresolved g ≡ false
          → (not (g.fnol_case_id == j)
              || (g.candidate_reference ∈? references || not (is_unresolved g)))
            ≡ true
      stays f = rw f (or_or_true (not (g.fnol_case_id == j)) (g.candidate_reference ∈? references))

  module _ (py : PythonWords) (spell : Text → String) (threshold : ℕ) where
    detect-Stands :
        (notices : List FnolCase) (claims : List Claim) (s : Session)
        → d.resolution ≢ DuplicateResolution.unresolved
        → Stands s.db.duplicates
        → Stands (detect py spell threshold notices claims s).1.db.duplicates
    unfolding detect
    detect-Stands notices claims s n h =
        let found = scoring py spell threshold notices claims s.case in
        let references = map (λ (a : DuplicateAssessment). a.record_of.reference) found in
        prune_duplicates-Stands s.case.id references (store_duplicates s.case.id found s.db) n
          (store_duplicates-Stands s.case.id found s.db h)

    detect_all-found :
        (scans : List (List FnolCase × List Claim)) (s : Session)
        → d.resolution ≢ DuplicateResolution.unresolved
        → Stands s.db.duplicates
        → Stands (detect_all py spell threshold scans s).db.duplicates
    unfolding detect_all
    detect_all-found [] s n h = h
    detect_all-found ((notices, claims) ∷ rest) s n h =
        detect_all-found rest _ n (detect-Stands notices claims s n h)

    -- A candidate that an officer has decided keeps its decision, with who made it, when and why,
    -- through any number of later scans, whatever notices and claims they find and whether or not the
    -- candidate still scores.
    pub detect_all-Stands :
        (scans : List (List FnolCase × List Claim)) (s : Session)
        → find duplicate_key (i, reference) s.db.duplicates ≡ some d
        → d.resolution ≢ DuplicateResolution.unresolved
        → Stands (detect_all py spell threshold scans s).db.duplicates
    detect_all-Stands scans s h n = detect_all-found scans s n (d, h, (refl, refl, refl, refl))
