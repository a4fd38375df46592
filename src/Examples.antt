-- ===== src/Examples.antt =====
-- Concrete notifications, and every theorem applied to one.
mod Fixtures
mod Status
mod Intake
mod Desk
mod Claims
mod Workflow
mod Edits
mod Texts
mod Policies
mod Assessed
mod Decided
