-- ===== src/Store.antt =====
-- internal/store/store.go: tables of rows by id, and operations that fail or change the state.
pub mod Table
pub mod Op
pub mod Rows
