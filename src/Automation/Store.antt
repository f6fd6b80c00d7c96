-- ===== src/Automation/Store.antt =====
-- tools/data-poc/src/automation/automationState.ts: the file that keeps the state of the automation,
-- how a value of it is read, and what is written.
pub mod Words
pub mod Values
pub mod Normalize
pub mod File
pub mod Valid
pub mod Roundtrip
pub mod Accepted
pub mod Laws
pub mod Fixtures
mod Tests
