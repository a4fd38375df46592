-- ===== src/References.antt =====
-- Human references, `app/domain/references.py`. A text is the list of its code points. What Python's
-- `str.strip`, `str.upper` and the class `\d` do beyond ASCII is a parameter, with what the code
-- relies on as laws.
pub mod Digits
pub mod RoundTrip
pub mod Distinct
use claims_workbench_be.Common.{
  ℕ, zero, suc, ◌+◌, ◌*◌, ◌-◌, ◌/◌, ◌%◌, Bool, true, false, ◌&&◌, Option, none, some, List, [], ◌∷◌,
  ◌++◌, ◌≡◌, length, if◌then◌else◌, ltb, leb, nat_beq, replicate, all, ◌≤◌,
}

abbrev pub Text : Type 0
Text = List ℕ

-- `FNOL` and `CLM`
abbrev pub fnol_prefix : Text
fnol_prefix = b'F' ∷ b'N' ∷ b'O' ∷ b'L' ∷ []

abbrev pub claim_prefix : Text
claim_prefix = b'C' ∷ b'L' ∷ b'M' ∷ []

abbrev pub dash : ℕ
dash = b'-'

-- The decimal digits of `n`, on fuel above `n`.
unfoldable pub decimal : ℕ → ℕ → Text
decimal zero n = []
decimal (suc fuel) n =
    let front = decimal fuel (n / 10) in
    if ltb n 10 then (b'0' + n) ∷ [] else front ++ ((b'0' + n % 10) ∷ [])

-- `f"{n:0{width}d}"`
unfoldable pub zero_padded : ℕ → ℕ → Text
unfolding decimal
zero_padded width n =
    let digits = decimal (suc n) n in replicate (width - length digits) b'0' ++ digits

unfoldable pub format_reference : Text → ℕ → ℕ → Text
unfolding zero_padded
format_reference prefix year sequence =
    prefix ++ (dash ∷ (zero_padded 4 year ++ (dash ∷ zero_padded 6 sequence)))

abbrev pub is_upper : ℕ → Bool
is_upper c = leb b'A' c && leb c b'Z'

abbrev pub is_ascii_digit : ℕ → Bool
is_ascii_digit c = leb b'0' c && leb c b'9'

-- The characters that a reference is written in.
abbrev pub is_plain : ℕ → Bool
is_plain c = if is_upper c then true else if is_ascii_digit c then true else nat_beq c dash

-- What the code takes from Python's text functions.
pub record PythonText : Type 0 where
  pub strip_upper : Text → Text
  pub is_digit : ℕ → Bool
  pub digit_value : ℕ → ℕ
  pub plain_kept : (t : Text) → all is_plain t ≡ true → strip_upper t ≡ t
  pub ascii_digit : (d : ℕ) → d ≤ 9 → is_digit (b'0' + d) ≡ true
  pub ascii_value : (d : ℕ) → d ≤ 9 → digit_value (b'0' + d) ≡ d
  pub dash_no_digit : is_digit dash ≡ false

-- The longest run of characters that pass the test, and the rest.
unfoldable pub span : (ℕ → Bool) → Text → Text × Text
span p [] = ([], [])
span p (c ∷ cs) = let (run, rest) = span p cs in if p c then (c ∷ run, rest) else ([], c ∷ cs)

abbrev pub between : ℕ → ℕ → ℕ → Bool
between low high n = leb low n && leb n high

-- The text behind a dash.
abbrev pub after_dash : Text → Option Text
after_dash [] = none
after_dash (c ∷ cs) = if nat_beq c dash then some cs else none

module _ (py : PythonText) where
  open py use {strip_upper, is_digit, digit_value}

  -- `int(group)`
  unfoldable pub int_from : ℕ → Text → ℕ
  int_from acc [] = acc
  int_from acc (c ∷ cs) = int_from (acc * 10 + digit_value c) cs

  -- The last group runs to the end of the text: `strip` leaves no newline for `$` to stand before.
  unfoldable pub match_sequence : Text → ℕ → Text → Option (Text × ℕ × ℕ)
  unfolding span int_from
  match_sequence prefix year text =
      let (digits, rest) = span is_digit text in
      if between 4 8 (length digits)
      then elim rest [ [] ↦ some (prefix, year, int_from 0 digits) | c ∷ cs ↦ none ]
      else none

  unfoldable pub match_year : Text → Text → Option (Text × ℕ × ℕ)
  unfolding span int_from match_sequence
  match_year prefix text =
      let (digits, rest) = span is_digit text in
      if nat_beq (length digits) 4
      then elim (after_dash rest) [
        | none ↦ none
        | some tail ↦ match_sequence prefix (int_from 0 digits) tail
      ]
      else none

  -- `_REFERENCE_RE`: the classes exclude the dash, so each group is the longest run.
  unfoldable pub match_reference : Text → Option (Text × ℕ × ℕ)
  unfolding span match_year
  match_reference text =
      let (prefix, rest) = span is_upper text in
      if between 2 6 (length prefix)
      then elim (after_dash rest) [ none ↦ none | some tail ↦ match_year prefix tail ]
      else none

  unfoldable pub parse_reference : Text → Option (Text × ℕ × ℕ)
  unfolding match_reference
  parse_reference reference = match_reference (strip_upper reference)
