-- ===== src/References/Distinct.antt =====
-- `format_reference` of `app/domain/references.py` writes different numbers differently.
use claims_workbench_be.Common.{
  ℕ, ◌+◌, ◌-◌, [], ◌∷◌, ◌++◌, ◌≡◌, refl, sym, ◌∙◌, ap, ◌≤◌, true, arith,
}
use claims_workbench_be.References.{
  Text, PythonText, dash, is_ascii_digit, zero_padded, int_from, format_reference,
}
use claims_workbench_be.References.Digits.{int_from-zero_padded}

ascii_test : (d : ℕ) → d ≤ 9 → is_ascii_digit (b'0' + d) ≡ true
ascii_test d h = ground arith

ascii_number : (d : ℕ) → d ≤ 9 → b'0' + d - b'0' ≡ d
ascii_number d h = omega arith

-- A reader of ASCII digits, by which the padded numbers are told apart.
abbrev ascii : PythonText
ascii = record {
  strip_upper = λ t. t;
  is_digit = is_ascii_digit;
  digit_value = λ c. c - b'0';
  plain_kept = λ t h. refl;
  ascii_digit = ascii_test;
  ascii_value = ascii_number;
  dash_no_digit = refl;
}

zero_padded_injective : (width m n : ℕ) → zero_padded width m ≡ zero_padded width n → m ≡ n
zero_padded_injective width m n e =
    sym (int_from-zero_padded ascii width m)
    ∙ ap (int_from ascii 0) e
    ∙ int_from-zero_padded ascii width n

append_cancel : (xs ys zs : Text) → (xs ++ ys) ≡ (xs ++ zs) → ys ≡ zs
append_cancel [] ys zs e = e
append_cancel (x ∷ xs) ys zs e = append_cancel xs ys zs (cc)

-- With one prefix and one year, two numbers that are written alike are the same.
pub format_reference_injective :
    (prefix : Text) (year m n : ℕ)
    → format_reference prefix year m ≡ format_reference prefix year n
    → m ≡ n
unfolding format_reference
format_reference_injective prefix year m n e =
    let behind : dash ∷ (zero_padded 4 year ++ (dash ∷ zero_padded 6 m))
        ≡ dash ∷ (zero_padded 4 year ++ (dash ∷ zero_padded 6 n)) =
      append_cancel prefix _ _ e in
    let tail : dash ∷ zero_padded 6 m ≡ dash ∷ zero_padded 6 n =
      append_cancel (zero_padded 4 year) _ _ (cc) in
    zero_padded_injective 6 m n (cc)
