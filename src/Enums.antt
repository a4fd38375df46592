-- ===== src/Enums.antt =====
-- The string enumerations of `app/domain/enums.py`, by the part of the program that they serve.
pub mod Intake
pub mod Assessment
pub mod Claims
