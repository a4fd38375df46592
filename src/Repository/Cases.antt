-- ===== src/Repository/Cases.antt =====
-- The case table of `app/repositories/fnol.py`, keyed by the case's id. A service that mutates a case
-- mutates the session's object, which is the row that a later read of the same session returns.
use claims_workbench_be.Common.{ℕ, Option, nat_eq}
use claims_workbench_be.Common.Table.{find, modify}
use claims_workbench_be.Model.Case.{FnolCase}
use claims_workbench_be.Model.Db.{Db}

abbrev pub case_id : FnolCase → ℕ
case_id c = c.id

-- `get` and `get_for_update`; the row lock is the transaction's.
unfoldable pub get_case : ℕ → Db → Option FnolCase
get_case i db = find case_id i db.cases

unfoldable pub update_case : ℕ → (FnolCase → FnolCase) → Db → Db
update_case i f db = record db { cases = modify case_id i f db.cases }
