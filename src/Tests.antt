-- ===== src/Tests.antt =====
-- Concrete inputs, and the theorems at them.
pub mod Fixtures
pub mod Sources
pub mod Publications
pub mod Tokens
pub mod Queue
pub mod Sets
pub mod Aggregates
pub mod Intake
pub mod Catalogs
pub mod Gates
pub mod Play
pub mod Documents
