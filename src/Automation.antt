-- ===== src/Automation.antt =====
-- tools/data-poc/src/automation: the cadence of the sources, the scheduler's decision, the state of
-- the automation, and the coordinator that runs a cycle under the collector's lock.
pub mod Cadence
pub mod State
pub mod Scheduler
pub mod ErrorCode
pub mod Published
pub mod Cycle
pub mod Coordinator
pub mod Central
pub mod Store
pub mod Lock
mod Fixtures
