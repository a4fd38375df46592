-- ===== src/Examples/Texts.antt =====
-- Texts compared and references read back.
use claims_workbench_be.Common.{
  ℕ, ◌+◌, ◌-◌, true, some, ◌*◌, ◌≤◌, [], ◌∷◌, ◌≡◌, ◌≢◌, refl, arith, length, ap,
}
use claims_workbench_be.References.{
  Text, PythonText, is_ascii_digit, fnol_prefix, format_reference, parse_reference,
}
use claims_workbench_be.References.RoundTrip.{parse_reference-format_reference}
use claims_workbench_be.Matching.{ratio}
use claims_workbench_be.Matching.Subsequence.{Subsequence}
use claims_workbench_be.Matching.Lcs.{Common}
use claims_workbench_be.Matching.Scores.{ratio-Fair, ratio-longest}

-- `fire` and `fir`
abbrev fire : Text
fire = b'f' ∷ b'i' ∷ b'r' ∷ b'e' ∷ []

abbrev fir : Text
fir = b'f' ∷ b'i' ∷ b'r' ∷ []

fire-ratio : ratio fire fir ≡ record { over = 6; under = 7 }
unfolding ratio
fire-ratio = refl

fire_differs : fire ≢ fir
fire_differs e = let n = ap length e in absurd (omega arith)

ratio-Fair_example :
    (ratio fire fir ≡ ratio fir fire)
    × ((ratio fire fir).over ≤ (ratio fire fir).under)
    × (1 ≤ (ratio fire fir).under)
    × ((ratio fire fir).over ≡ (ratio fire fir).under → fire ≡ fir)
ratio-Fair_example = ratio-Fair fire fir

ratio-longest_example :
    (n : ℕ) × (ratio fire fir ≡ record { over = 2 * n; under = 7 })
    × Common fire fir n
    × ((zs : Text) → Subsequence zs fire → Subsequence zs fir → length zs ≤ n)
ratio-longest_example = ratio-longest fire fir refl fire_differs

-- ASCII texts that are clean already.
digit_is_digit : (d : ℕ) → d ≤ 9 → is_ascii_digit (48 + d) ≡ true
digit_is_digit d h = ground arith

abbrev ascii_text : PythonText
ascii_text = record {
  strip_upper = λ t. t;
  is_digit = is_ascii_digit;
  digit_value = λ c. c - 48;
  plain_kept = λ t h. refl;
  ascii_digit = digit_is_digit;
  ascii_value = λ d h. omega arith;
  dash_no_digit = refl;
}

parse_reference-format_reference_example :
    parse_reference ascii_text (format_reference fnol_prefix 2026 412)
    ≡ some (fnol_prefix, 2026, 412)
parse_reference-format_reference_example =
    parse_reference-format_reference ascii_text fnol_prefix 2026 412 refl refl (omega arith)
      (omega arith)
