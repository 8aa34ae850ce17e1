-- ===== src/Model.antt =====
-- internal/model: the records that the database keeps, and the database itself.
pub mod Source
pub mod Publication
pub mod Catalog
pub mod Queue
pub mod Database
