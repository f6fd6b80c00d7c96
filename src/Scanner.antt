-- ===== src/Scanner.antt =====
-- The scanner of tools/data-poc/src: candidates, the basic filter, the security rules and the
-- combined output.
pub mod Types
pub mod Filters
pub mod Security
pub mod Normalize
pub mod Combined
pub mod Output
pub mod Pair
pub mod Discovery
pub mod Fixtures
