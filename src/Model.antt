-- ===== src/Model.antt =====
-- The rows that the services read and write: `app/models/fnol.py`, `app/models/claim.py` and
-- `app/models/audit.py`. A uuid, a time and a float that is only compared are natural numbers: a time
-- counts microseconds, a float in [0, 1] counts units of 2^-1074.
pub mod Case
pub mod Rows
pub mod Claims
pub mod Db
