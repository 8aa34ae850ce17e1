-- ===== src/Service.antt =====
-- internal/service: the operations on sources, source sets, publications and bindings.
pub mod Draws
pub mod Connectors
pub mod Intake
pub mod Preview
pub mod Catalogs
pub mod Runtimes
pub mod Steps
pub mod Play
pub mod Preferences
pub mod Feedback
pub mod Overrides
pub mod Subscriptions
pub mod Visibility
pub mod Editing
pub mod Removal
pub mod Sound
pub mod Lifecycle
pub mod Probing
pub mod Sync
pub mod Platform
pub mod Jobs
pub mod Schedule
pub mod Aggregates
pub mod Leaving
pub mod Buckets
pub mod Bindings
pub mod Selection
pub mod Publishing
pub mod SourceSets
