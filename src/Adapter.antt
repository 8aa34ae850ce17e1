-- ===== src/Adapter.antt =====
-- internal/adapter: what the relay makes of a fetched document.
pub mod Difference
pub mod Jsonc
pub mod Registry
