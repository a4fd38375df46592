-- ===== src/Normalisation/Currency.antt =====
-- How `parse_currency` of `app/domain/normalisation.py` reads a symbol.
use claims_workbench_be.Common.{Bool, true, false, some, String, ◌≡◌, ◌==◌, string_eq}
use claims_workbench_be.Normalisation.{Python, currency_symbols, symbol_in, parse_currency}

first_two :
    (test : String → Bool)
    → test "£" ≡ false
    → test "$" ≡ true
    → symbol_in test currency_symbols ≡ some "USD"
first_two test p d = rw (p, d)

-- An amount with a dollar sign and no pound sign is read as US dollars, whatever stands before the
-- sign: a text that is written with the symbol of the Singapore dollar, `S$`, is never read as that.
pub parse_currency-dollar :
    (py : Python) (value fallback : String)
    → (value == "") ≡ false
    → py.contains (py.lower (py.strip value)) "£" ≡ false
    → py.contains (py.lower (py.strip value)) "$" ≡ true
    → parse_currency py (some value) fallback ≡ "USD"
unfolding parse_currency
parse_currency-dollar py value fallback n p d =
    rw n (rw (first_two (py.contains (py.lower (py.strip value))) p d))
