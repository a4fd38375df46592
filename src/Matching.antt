-- ===== src/Matching.antt =====
-- The similarity of two texts: `app/domain/matching.py`. A score is the exact fraction of a numerator
-- and a denominator that the code divides as floats. Python's text functions are parameters.
pub mod Subsequence
pub mod Lcs
pub mod Rows
pub mod Scores
use claims_workbench_be.Common.{
  ℕ, zero, suc, ◌+◌, ◌*◌, ◌-◌, Bool, true, false, not, ◌&&◌, ◌||◌, Option, none, some, some_or,
  List, [], ◌∷◌, ◌++◌, String, ◌≡◌, nat_eq, string_eq, list_eq, BEq, ◌==◌, ◌∈?◌, if◌then◌else◌, ltb,
  leb, length, keep, is_empty,
}
use claims_workbench_be.References.{Text}
use claims_workbench_be.Signals.{PythonStrings, normalise}

-- `re.findall` of `[a-z0-9]+`, the words joined by a space, `len`, `re.sub` of `[^a-z0-9]` by nothing,
-- `rsplit("@", 1)[-1]`, and the code points of a text.
pub record PythonWords : Type 0 where
  pub strings : PythonStrings
  pub find_words : String → List String
  pub join_words : List String → String
  pub len : String → ℕ
  pub alphanumeric : String → String
  pub behind_at : String → String
  pub points : String → Text

abbrev pub stopwords : List String
stopwords =
    "a" ∷ "an" ∷ "and" ∷ "are" ∷ "as" ∷ "at" ∷ "be" ∷ "been" ∷ "by" ∷ "for" ∷ "from" ∷ "had" ∷ "has"
    ∷ "have" ∷ "in" ∷ "into" ∷ "is" ∷ "it" ∷ "its" ∷ "of" ∷ "on" ∷ "or" ∷ "that" ∷ "the" ∷ "this"
    ∷ "to" ∷ "was" ∷ "were" ∷ "will" ∷ "with" ∷ "our" ∷ "their" ∷ "there" ∷ "they" ∷ "we" ∷ "you"
    ∷ "your" ∷ "please" ∷ "kind" ∷ "regards" ∷ "dear" ∷ "hi" ∷ "hello" ∷ "thanks" ∷ "thank"
    ∷ "regarding" ∷ "ref" ∷ "re" ∷ "fwd" ∷ "fw" ∷ []

abbrev pub company_suffixes : List String
company_suffixes =
    "limited" ∷ "ltd" ∷ "plc" ∷ "llp" ∷ "llc" ∷ "inc" ∷ "incorporated" ∷ "corp" ∷ "corporation"
    ∷ "company" ∷ "co" ∷ "gmbh" ∷ "ag" ∷ "sa" ∷ "bv" ∷ "nv" ∷ "pty" ∷ "holdings" ∷ "group"
    ∷ "international" ∷ "uk" ∷ "europe" ∷ []

-- A numerator and a denominator.
pub record Ratio : Type 0 where
  pub over : ℕ
  pub under : ℕ

abbrev pub none_of : Ratio
none_of = record { over = 0; under = 1 }

abbrev pub all_of : Ratio
all_of = record { over = 1; under = 1 }

-- A set is a list of its members, each once.
unfoldable pub set_of : List String → List String
set_of [] = []
set_of (x ∷ xs) = let rest = set_of xs in if x ∈? rest then rest else x ∷ rest

abbrev pub meet : List String → List String → List String
meet xs ys = keep (λ x. x ∈? ys) xs

abbrev pub join : List String → List String → List String
join xs ys = xs ++ keep (λ y. not (y ∈? xs)) ys

unfoldable pub jaccard : List String → List String → Ratio
unfolding set_of
jaccard left right =
    let a = set_of left in
    let b = set_of right in
    if is_empty a || is_empty b
    then none_of
    else record { over = length (meet a b); under = length (join a b) }

abbrev pub min : ℕ → ℕ → ℕ
min a b = if leb a b then a else b

unfoldable pub token_containment : List String → List String → Ratio
unfolding set_of
token_containment left right =
    let a = set_of left in
    let b = set_of right in
    if is_empty a || is_empty b
    then none_of
    else record { over = length (meet a b); under = min (length a) (length b) }

abbrev pub max : ℕ → ℕ → ℕ
max a b = if leb b a then a else b

abbrev pub head_or : List ℕ → ℕ → ℕ
head_or [] default = default
head_or (x ∷ xs) default = x

-- The cells of a row after the first. `left` is the cell before, and `previous` the row above from the
-- cell before on.
unfoldable pub next_cells : ℕ → ℕ → List ℕ → Text → List ℕ
next_cells char_a left previous [] = []
next_cells char_a left [] (char_b ∷ b) = []
next_cells char_a left (diagonal ∷ above) (char_b ∷ b) =
    let cell = if char_a == char_b then diagonal + 1 else max (head_or above 0) left in
    cell ∷ next_cells char_a cell above b

unfoldable pub last_row : List ℕ → Text → Text → List ℕ
unfolding next_cells
last_row previous [] b = previous
last_row previous (char_a ∷ a) b = last_row (0 ∷ next_cells char_a 0 previous b) a b

abbrev pub zeros : Text → List ℕ
zeros [] = 0 ∷ []
zeros (char_b ∷ b) = 0 ∷ zeros b

-- `previous[-1]`
abbrev pub last_cell : List ℕ → ℕ
last_cell [] = 0
last_cell (x ∷ []) = x
last_cell (x ∷ y ∷ xs) = last_cell (y ∷ xs)

-- Twice the length of the last cell over that of both texts, the longer text down the rows.
abbrev pub row_ratio : Text → Text → Ratio
row_ratio a b = record {
  over = 2 * last_cell (last_row (zeros b) a b);
  under = length a + length b;
}

unfoldable pub ratio : Text → Text → Ratio
unfolding last_row
ratio a b =
    if is_empty a || is_empty b
    then none_of
    else if a == b
    then all_of
    else if ltb (length a) (length b)
    then row_ratio b a
    else row_ratio a b

-- The greater of two scores.
abbrev pub better : Ratio → Ratio → Ratio
better p q = if ltb (p.over * q.under) (q.over * p.under) then q else p

-- A signal with its weight; a signal that could not be compared, `-1` in the code, is `none`.
abbrev pub Signal : Type 0
Signal = Option Ratio × ℕ

-- The sum of the scores times their weights, and the sum of the weights.
unfoldable pub weighed_signals : List Signal → Ratio × ℕ
weighed_signals [] = (none_of, 0)
weighed_signals ((none, weight) ∷ parts) = weighed_signals parts
weighed_signals ((some s, weight) ∷ parts) =
    let (sum, total) = weighed_signals parts in
    let scored : Ratio = record {
      over = s.over * weight * sum.under + sum.over * s.under;
      under = s.under * sum.under;
    } in
    if ltb 0 weight then (scored, weight + total) else (sum, total)

unfoldable pub weighted_score : List Signal → Ratio
unfolding weighed_signals
weighted_score parts =
    let (sum, total) = weighed_signals parts in
    if leb total 0 then none_of else record { over = sum.over; under = sum.under * total }

-- `while words and words[-1] in _COMPANY_SUFFIXES: words.pop()`
unfoldable pub drop_suffixes : List String → List String
drop_suffixes [] = []
drop_suffixes (w ∷ ws) =
    let rest = drop_suffixes ws in if is_empty rest && (w ∈? company_suffixes) then [] else w ∷ rest

module _ (py : PythonWords) where
  abbrev pub normal : Option String → String
  normal value = normalise py.strings (some_or value "")

  unfoldable pub tokens : Bool → Option String → List String
  unfolding set_of
  tokens drop value =
      let words = py.find_words (normal value) in
      if drop
      then set_of (keep (λ w. not (w ∈? stopwords) && ltb 1 (py.len w)) words)
      else set_of words

  unfoldable pub normalise_reference : Option String → String
  normalise_reference value = py.alphanumeric (normal value)

  unfoldable pub normalise_organisation : Option String → String
  unfolding drop_suffixes
  normalise_organisation value = py.join_words (drop_suffixes (py.find_words (normal value)))

  unfoldable pub sequence_ratio : Option String → Option String → Ratio
  unfolding ratio
  sequence_ratio left right = ratio (py.points (normal left)) (py.points (normal right))

  unfoldable pub name_similarity : Option String → Option String → Ratio
  unfolding normalise_organisation tokens token_containment sequence_ratio
  name_similarity left right =
      let a = normalise_organisation left in
      let b = normalise_organisation right in
      if a == "" || b == ""
      then none_of
      else if a == b
      then all_of
      else better (token_containment (tokens false (some a)) (tokens false (some b)))
          (sequence_ratio (some a) (some b))

  unfoldable pub text_similarity : Option String → Option String → Ratio
  unfolding tokens jaccard
  text_similarity left right = jaccard (tokens true left) (tokens true right)

  unfoldable pub location_similarity : Option String → Option String → Ratio
  unfolding tokens token_containment
  location_similarity left right = token_containment (tokens true left) (tokens true right)
