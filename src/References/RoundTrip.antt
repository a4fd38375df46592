-- ===== src/References/RoundTrip.antt =====
-- `parse_reference` of `app/domain/references.py` reads back what `format_reference` writes.
use claims_workbench_be.Common.{
  ℕ, ◌≤◌, ◌<◌, Bool, true, false, none, some, [], ◌∷◌, ◌++◌, ◌≡◌, refl, ◌∙◌, ap, length,
  if◌then◌else◌, nat_beq, arith, all, and_true,
}
use claims_workbench_be.Common.Each.{Each}
use claims_workbench_be.References.{
  Text, PythonText, dash, zero_padded, int_from, is_plain, is_upper, span, between, after_dash,
  format_reference, parse_reference, match_reference, match_year, match_sequence,
}
use claims_workbench_be.References.Digits.{
  IsDigit, zero_padded-IsDigit, length-zero_padded, int_from-zero_padded,
}

-- A text that does not go on with a character that passes the test.
abbrev Stops : (ℕ → Bool) → Text → Type 0
Stops p [] = Unit {0}
Stops p (c ∷ cs) = p c ≡ false

span-append :
    (p : ℕ → Bool) (xs ys : Text) → all p xs ≡ true → Stops p ys → span p (xs ++ ys) ≡ (xs, ys)
unfolding span
span-append p [] [] h s = refl
span-append p [] (c ∷ cs) h s = rw s refl
span-append p (x ∷ xs) ys h s =
    let (now, later) = and_true (p x) (all p xs) h in rw (span-append p xs ys later s) (rw now refl)

span-all : (p : ℕ → Bool) (xs : Text) → all p xs ≡ true → span p xs ≡ (xs, [])
unfolding span
span-all p [] h = refl
span-all p (x ∷ xs) h =
    let (now, later) = and_true (p x) (all p xs) h in rw (span-all p xs later) (rw now refl)

between_lem : (low high n : ℕ) → low ≤ n → n ≤ high → between low high n ≡ true
between_lem low high n h k = ground arith

all-append :
    (p : ℕ → Bool) (xs ys : Text) → all p xs ≡ true → all p ys ≡ true → all p (xs ++ ys) ≡ true
all-append p [] ys h k = k
all-append p (x ∷ xs) ys h k =
    let (now, later) = and_true (p x) (all p xs) h in rw now (all-append p xs ys later k)

all-Each :
    (p : ℕ → Bool) (xs : Text)
    → ((c : ℕ) → IsDigit c → p c ≡ true)
    → Each IsDigit xs
    → all p xs ≡ true
all-Each p [] f h = refl
all-Each p (x ∷ xs) f (now, later) = rw (f x now) (all-Each p xs f later)

plain_upper : (c : ℕ) → is_upper c ≡ true → is_plain c ≡ true
plain_upper c h = rw h refl

plain_digit : (c : ℕ) → IsDigit c → is_plain c ≡ true
plain_digit c (d, h, e) = ground arith

all-plain_upper : (xs : Text) → all is_upper xs ≡ true → all is_plain xs ≡ true
all-plain_upper [] h = refl
all-plain_upper (x ∷ xs) h =
    let (now, later) = and_true (is_upper x) (all is_upper xs) h in
    rw (plain_upper x now) (all-plain_upper xs later)

plain_reference :
    (prefix : Text) (year sequence : ℕ)
    → all is_upper prefix ≡ true
    → all is_plain (format_reference prefix year sequence) ≡ true
unfolding format_reference
plain_reference prefix year sequence h = all-append is_plain prefix _ (all-plain_upper prefix h) (
    all-append is_plain (zero_padded 4 year) _
      (all-Each is_plain (zero_padded 4 year) plain_digit (zero_padded-IsDigit 4 year))
      (all-Each is_plain (zero_padded 6 sequence) plain_digit (zero_padded-IsDigit 6 sequence)))

module _ (py : PythonText) where
  digits : (xs : Text) → Each IsDigit xs → all py.is_digit xs ≡ true
  digits xs h =
      all-Each py.is_digit xs (λ c (d, small, e). ap py.is_digit e ∙ py.ascii_digit d small) h

  match_sequence-padded :
      (prefix : Text) (year sequence : ℕ)
      → sequence < 100000000
      → match_sequence py prefix year (zero_padded 6 sequence) ≡ some (prefix, year, sequence)
  unfolding match_sequence
  match_sequence-padded prefix year sequence h =
      let run = zero_padded 6 sequence in
      let (wide, narrow) = length-zero_padded 6 7 sequence h (omega arith) in
      let fits = between_lem 4 8 (length run) (omega arith) narrow in
      ap
        (λ (r : Text × Text).
          if between 4 8 (length r.0)
          then elim r.1 [ [] ↦ some (prefix, year, int_from py 0 r.0) | c ∷ cs ↦ none ]
          else none)
        (span-all py.is_digit run (digits run (zero_padded-IsDigit 6 sequence)))
      ∙ rw fits (ap (λ n. some (prefix, year, n)) (int_from-zero_padded py 6 sequence))

  match_year-padded :
      (prefix rest : Text) (year : ℕ)
      → year < 10000
      → match_year py prefix (zero_padded 4 year ++ (dash ∷ rest))
        ≡ match_sequence py prefix year rest
  unfolding match_year
  match_year-padded prefix rest year h =
      let run = zero_padded 4 year in
      let (wide, narrow) = length-zero_padded 4 3 year h (omega arith) in
      let four : nat_beq (length run) 4 ≡ true = ground arith in
      ap
        (λ (r : Text × Text).
          if nat_beq (length r.0) 4
          then elim (after_dash r.1) [
            | none ↦ none
            | some tail ↦ match_sequence py prefix (int_from py 0 r.0) tail
          ]
          else none)
        (span-append py.is_digit run (dash ∷ rest) (digits run (zero_padded-IsDigit 4 year))
          py.dash_no_digit)
      ∙ rw four (ap (λ n. match_sequence py prefix n rest) (int_from-zero_padded py 4 year))

  match_reference-format :
      (prefix rest : Text)
      → all is_upper prefix ≡ true
      → between 2 6 (length prefix) ≡ true
      → match_reference py (prefix ++ (dash ∷ rest)) ≡ match_year py prefix rest
  unfolding match_reference
  match_reference-format prefix rest h k =
      ap
        (λ (r : Text × Text).
          if between 2 6 (length r.0)
          then elim (after_dash r.1) [ none ↦ none | some tail ↦ match_year py r.0 tail ]
          else none)
        (span-append is_upper prefix (dash ∷ rest) h refl)
      ∙ rw k refl

  -- A reference that is made of two to six capital letters, a year below 10000 and a number below a
  -- hundred million is read back as these.
  pub parse_reference-format_reference :
      (prefix : Text) (year sequence : ℕ)
      → all is_upper prefix ≡ true
      → between 2 6 (length prefix) ≡ true
      → year < 10000
      → sequence < 100000000
      → parse_reference py (format_reference prefix year sequence) ≡ some (prefix, year, sequence)
  unfolding parse_reference format_reference
  parse_reference-format_reference prefix year sequence h k y n =
      ap (match_reference py) (
        py.plain_kept (format_reference prefix year sequence)
          (plain_reference prefix year sequence h))
      ∙ (match_reference-format prefix _ h k
          ∙ (match_year-padded prefix (zero_padded 6 sequence) year y
              ∙ match_sequence-padded prefix year sequence n))
