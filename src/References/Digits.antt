-- ===== src/References/Digits.antt =====
-- The digits that `format_reference` of `app/domain/references.py` writes.
use claims_workbench_be.Common.{
  ℕ, zero, suc, ◌+◌, ◌*◌, ◌-◌, ◌/◌, ◌%◌, ◌≤◌, ◌<◌, true, [], ◌∷◌, ◌++◌, ◌≡◌, refl, ◌∙◌, ap, length,
  length-append, replicate, ltb, arith, Bool-cases, inl, inr,
}
use claims_workbench_be.Common.Each.{Each}
use claims_workbench_be.References.{Text, PythonText, decimal, zero_padded, int_from}

-- A decimal digit, as a code point.
abbrev pub IsDigit : ℕ → Type 0
IsDigit c = (d : ℕ) × (d ≤ 9) × (c ≡ b'0' + d)

Each-append : (xs ys : Text) → Each IsDigit xs → Each IsDigit ys → Each IsDigit (xs ++ ys)
Each-append [] ys h k = k
Each-append (x ∷ xs) ys (now, later) k = (now, Each-append xs ys later k)

small-IsDigit : (n : ℕ) → n < 10 → IsDigit (b'0' + n)
small-IsDigit n h = (n, omega arith, refl)

decimal-IsDigit : (fuel n : ℕ) → Each IsDigit (decimal fuel n)
unfolding decimal
decimal-IsDigit zero n = tt
decimal-IsDigit (suc fuel) n = elim (Bool-cases (ltb n 10)) [
  | inl t ↦ rw t (small-IsDigit n (ground arith), tt)
  | inr f ↦ rw f (
      Each-append (decimal fuel (n / 10)) ((b'0' + n % 10) ∷ []) (decimal-IsDigit fuel (n / 10))
        (small-IsDigit (n % 10) (omega arith), tt))
]

-- The powers of ten.
abbrev pub ten_to : ℕ → ℕ
ten_to zero = 1
ten_to (suc k) = 10 * ten_to k

length-decimal : (k fuel n : ℕ) → n < ten_to (suc k) → length (decimal fuel n) ≤ suc k
unfolding decimal
length-decimal k zero n h = omega arith
length-decimal zero (suc fuel) n h =
    let small : ltb n 10 ≡ true = ground arith in rw small (omega arith)
length-decimal (suc k) (suc fuel) n h = elim (Bool-cases (ltb n 10)) [
  | inl t ↦ rw t (omega arith)
  | inr f ↦
      let shorter = length-decimal k fuel (n / 10) (omega arith) in
      let sum = length-append (decimal fuel (n / 10)) ((b'0' + n % 10) ∷ []) in rw f (omega arith)
]

length-replicate : (k c : ℕ) → length (replicate k c) ≡ k
length-replicate zero c = refl
length-replicate (suc k) c = ap suc (length-replicate k c)

replicate-IsDigit : (k : ℕ) → Each IsDigit (replicate k b'0')
replicate-IsDigit zero = tt
replicate-IsDigit (suc k) = (small-IsDigit 0 (omega arith), replicate-IsDigit k)

pub zero_padded-IsDigit : (width n : ℕ) → Each IsDigit (zero_padded width n)
unfolding zero_padded
zero_padded-IsDigit width n =
    let digits = decimal (suc n) n in
    Each-append (replicate (width - length digits) b'0') digits
      (replicate-IsDigit (width - length digits)) (decimal-IsDigit (suc n) n)

-- The padded number is as wide as asked, or as the number needs.
pub length-zero_padded :
    (width k n : ℕ)
    → n < ten_to (suc k)
    → width ≤ suc k
    → (width ≤ length (zero_padded width n)) × (length (zero_padded width n) ≤ suc k)
unfolding zero_padded
length-zero_padded width k n h w =
    let digits = decimal (suc n) n in
    let short = length-decimal k (suc n) n h in
    let pad = length-replicate (width - length digits) b'0' in
    let sum = length-append (replicate (width - length digits) b'0') digits in
    (omega arith, omega arith)

module _ (py : PythonText) where
  int_from-append :
      (acc : ℕ) (xs : Text) (c : ℕ)
      → int_from py acc (xs ++ (c ∷ [])) ≡ int_from py acc xs * 10 + py.digit_value c
  unfolding int_from
  int_from-append acc [] c = refl
  int_from-append acc (x ∷ xs) c = int_from-append (acc * 10 + py.digit_value x) xs c

  int_from-decimal : (fuel n : ℕ) → n < fuel → int_from py 0 (decimal fuel n) ≡ n
  unfolding decimal int_from
  int_from-decimal zero n h = absurd (omega arith)
  int_from-decimal (suc fuel) n h = elim (Bool-cases (ltb n 10)) [
    | inl t ↦ rw t (let d = py.ascii_value n (ground arith) in omega arith)
    | inr f ↦
        let large : 10 ≤ n = ground arith in
        let rest = int_from-decimal fuel (n / 10) (omega arith) in
        let d = py.ascii_value (n % 10) (omega arith) in
        let sum = int_from-append 0 (decimal fuel (n / 10)) (b'0' + n % 10) in rw f (omega arith)
  ]

  int_from-replicate :
      (k : ℕ) (xs : Text) → int_from py 0 (replicate k b'0' ++ xs) ≡ int_from py 0 xs
  unfolding int_from
  int_from-replicate zero xs = refl
  int_from-replicate (suc k) xs =
      let nought : py.digit_value b'0' ≡ 0 = py.ascii_value 0 (omega arith) in
      let start : 0 * 10 + py.digit_value b'0' ≡ 0 = omega arith in
      ap (λ d. int_from py d (replicate k b'0' ++ xs)) start ∙ int_from-replicate k xs

  -- Reading the padded number gives the number.
  pub int_from-zero_padded : (width n : ℕ) → int_from py 0 (zero_padded width n) ≡ n
  unfolding zero_padded
  int_from-zero_padded width n =
      let digits = decimal (suc n) n in
      int_from-replicate (width - length digits) digits ∙ int_from-decimal (suc n) n (omega arith)
