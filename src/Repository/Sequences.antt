-- ===== src/Repository/Sequences.antt =====
-- `next_reference` of `app/repositories/reference.py`; the year is the caller's or the clock's.
use claims_workbench_be.Common.{
  ℕ, ◌+◌, Bool, false, ◌&&◌, Option, none, some, nat_eq, list_eq, ◌==◌, beq_self, ◌≡◌, refl, sym,
  ap, ◌∙◌, if◌then◌else◌,
}
use claims_workbench_be.Common.Table.{find, upsert, upserted, find-upsert, pair_eq}
use claims_workbench_be.References.{Text, format_reference}
use claims_workbench_be.Model.Db.{Db, ReferenceSequence}

abbrev pub sequence_key : ReferenceSequence → Text × ℕ
sequence_key s = (s.prefix, s.year)

-- How far a counter has come: a counter without a row stands at zero.
unfoldable pub last_reference : Text → ℕ → Db → ℕ
last_reference prefix year db = elim (find sequence_key (prefix, year) db.sequences) [
  | none ↦ 0
  | some s ↦ s.last_value
]

unfoldable pub next_reference : Text → ℕ → Db → Text × Db
next_reference prefix year db = (
  format_reference prefix year (last_reference prefix year db + 1),
  record db {
    sequences =
        upsert sequence_key (prefix, year) (record { prefix = prefix; year = year; last_value = 1 })
          (λ (s : ReferenceSequence). record s { last_value = s.last_value + 1 }) db.sequences;
  },
)

abbrev pub same_counter : Text → ℕ → Text → ℕ → Bool
same_counter p y q z = p == q && y == z

abbrev next_of : ReferenceSequence → ReferenceSequence
next_of s = record s { last_value = s.last_value + 1 }

last_upserted :
    (prefix : Text) (year : ℕ) (row : Option ReferenceSequence)
    → (upserted sequence_key
        (record { prefix = prefix; year = year; last_value = 1 })
        next_of
        row).last_value
      ≡ elim row [ none ↦ 0 | some s ↦ s.last_value ] + 1
last_upserted prefix year none = refl
last_upserted prefix year (some s) = refl

find-next_reference :
    (prefix : Text) (year : ℕ) (db : Db) (p : Text) (y : ℕ)
    → find sequence_key (p, y) (next_reference prefix year db).1.sequences ≡ (
        if same_counter prefix year p y
        then some (
            upserted sequence_key
              (record { prefix = prefix; year = year; last_value = 1 })
              next_of
              (find sequence_key (prefix, year) db.sequences))
        else find sequence_key (p, y) db.sequences)
unfolding next_reference
find-next_reference prefix year db p y =
    find-upsert sequence_key (p, y) (prefix, year)
      (record { prefix = prefix; year = year; last_value = 1 }) next_of db.sequences refl
      (λ _. refl)

find-next_self :
    (prefix : Text) (year : ℕ) (db : Db)
    → find sequence_key (prefix, year) (next_reference prefix year db).1.sequences
      ≡ some (
          upserted sequence_key
            (record { prefix = prefix; year = year; last_value = 1 })
            next_of
            (find sequence_key (prefix, year) db.sequences))
find-next_self prefix year db =
    find-next_reference prefix year db prefix year ∙ rw (beq_self prefix, beq_self year)

find-next_other :
    (prefix : Text) (year : ℕ) (db : Db) (p : Text) (y : ℕ)
    → same_counter prefix year p y ≡ false
    → find sequence_key (p, y) (next_reference prefix year db).1.sequences
      ≡ find sequence_key (p, y) db.sequences
find-next_other prefix year db p y ne = find-next_reference prefix year db p y ∙ rw ne

-- A reference is rendered from the counter's next value, the counter of its prefix and year moves up by
-- one, and no other counter moves.
pub next_reference_lem :
    (prefix : Text) (year : ℕ) (db : Db)
    → let (text, db') = next_reference prefix year db in
      (text ≡ format_reference prefix year (last_reference prefix year db'))
      × (last_reference prefix year db' ≡ last_reference prefix year db + 1)
      × ((p : Text) (y : ℕ)
          → (same_counter prefix year p y) ≡ false
          → last_reference p y db' ≡ last_reference p y db)
unfolding next_reference last_reference
next_reference_lem prefix year db =
    let own : last_reference prefix year (next_reference prefix year db).1
        ≡ last_reference prefix year db + 1 =
      ap (λ row. elim row [ none ↦ 0 | some s ↦ s.last_value ]) (find-next_self prefix year db)
      ∙ last_upserted prefix year (find sequence_key (prefix, year) db.sequences) in
    (
      ap (format_reference prefix year) (sym own),
      own,
      λ p y ne.
          ap (λ row. elim row [ none ↦ 0 | some s ↦ s.last_value ])
            (find-next_other prefix year db p y ne),
    )
