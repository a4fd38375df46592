-- ===== src/Extraction/Typed.antt =====
-- What `apply` of `app/services/fnol/extraction.py` reads for a column fits the column.
use claims_workbench_be.Model.Case.{attribute_eq}
use claims_workbench_be.Session.{Session}
