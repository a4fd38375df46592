-- ===== src/Rules.antt =====
-- The rule tables of `app/domain/rules.py`.
pub mod RequiredFields
pub mod FieldMeta
