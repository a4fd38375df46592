-- ===== src/Assessment.antt =====
-- The severity, the fraud indicators and the coverage indicator of a notification:
-- `app/domain/assessment.py`. The sentences of a result are left out; a confidence and a weight are
-- in hundredths.
pub mod SeverityBand
pub mod Coverage
use claims_workbench_be.Common.{ℕ, String}

-- What moved an assessment, and by how much.
pub record Factor : Type 0 where
  pub key : String
  pub weight : ℕ
