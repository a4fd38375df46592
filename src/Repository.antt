-- ===== src/Repository.antt =====
-- The reads and writes of `app/repositories/`, over tables with their natural keys.
pub mod Cases
pub mod Exceptions
pub mod Claims
pub mod Sequences
pub mod Issued
pub mod Fields
pub mod Parties
pub mod PolicyMatches
pub mod Duplicates
